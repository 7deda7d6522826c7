-- ===== src/Types/Chain.antt =====
-- src/types/chain.rs: the getters of a chain position.
pub mod Laws
use bdk_wasm.Base.{ℕ, Bool, Option, none, some, map_option}
use bdk_wasm.Bdk.Opaque.{BdkTypes}
use bdk_wasm.Bdk.Chain.{BdkChainPosition, ChainLib}
use bdk_wasm.Types.Wrapper.{Wrapper, wrap, deref}
use bdk_wasm.Types.Output.{Txid}
use bdk_wasm.Types.Block.{ConfirmationBlockTime}

abbrev pub ChainPosition : BdkTypes → Type 0
ChainPosition T = Wrapper (BdkChainPosition T)

module _ {T : BdkTypes} (C : ChainLib T) where
  -- `ChainPosition::is_confirmed`
  unfoldable pub is_confirmed : ChainPosition T → Bool
  is_confirmed p = C.is_confirmed (deref p)

  -- `ChainPosition::confirmation_height_upper_bound`
  unfoldable pub confirmation_height_upper_bound : ChainPosition T → Option ℕ
  confirmation_height_upper_bound p = C.confirmation_height_upper_bound (deref p)

module _ {T : BdkTypes} where
  -- `ChainPosition::last_seen`
  unfoldable pub last_seen : ChainPosition T → Option ℕ
  last_seen (wrap (BdkChainPosition.unconfirmed _ last)) = last
  last_seen _ = none

  -- `ChainPosition::first_seen`
  unfoldable pub first_seen : ChainPosition T → Option ℕ
  first_seen (wrap (BdkChainPosition.unconfirmed first _)) = first
  first_seen _ = none

  -- `ChainPosition::anchor`
  unfoldable pub anchor : ChainPosition T → Option (ConfirmationBlockTime T)
  anchor (wrap (BdkChainPosition.confirmed a _)) = some (wrap a)
  anchor _ = none

  -- `ChainPosition::transitively`
  unfoldable pub transitively : ChainPosition T → Option (Txid T)
  transitively (wrap (BdkChainPosition.confirmed _ t)) = map_option wrap t
  transitively _ = none
