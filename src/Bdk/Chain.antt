-- ===== src/Bdk/Chain.antt =====
-- The chain data of bdk_wallet that the crate takes apart: chain positions and wallet events.
use bdk_wasm.Base.{ℕ, ◌≡◌, Bool, true, false, Option, none, some}
use bdk_wasm.Bdk.Opaque.{BdkTypes, BdkBlockId, BdkConfirmationBlockTime}

pub data BdkChainPosition (T : BdkTypes) : Type 0 where
  confirmed : BdkConfirmationBlockTime T → Option T.Txid → BdkChainPosition T
  unconfirmed : Option ℕ → Option ℕ → BdkChainPosition T

-- The methods of a position that the crate calls.
pub record ChainLib (T : BdkTypes) : Type 0 where
  pub is_confirmed : BdkChainPosition T → Bool
  pub confirmation_height_upper_bound : BdkChainPosition T → Option ℕ

-- Their documented behaviour.
pub record IsLawful {T : BdkTypes} (C : ChainLib T) : Type 0 where
  pub is_confirmed_confirmed :
      (a : BdkConfirmationBlockTime T) (t : Option T.Txid)
      → C.is_confirmed (BdkChainPosition.confirmed a t) ≡ true
  pub is_confirmed_unconfirmed :
      (f l : Option ℕ) → C.is_confirmed (BdkChainPosition.unconfirmed f l) ≡ false
  pub upper_bound_confirmed :
      (a : BdkConfirmationBlockTime T) (t : Option T.Txid)
      → C.confirmation_height_upper_bound (BdkChainPosition.confirmed a t) ≡ some a.block_id.height
  pub upper_bound_unconfirmed :
      (f l : Option ℕ) → C.confirmation_height_upper_bound (BdkChainPosition.unconfirmed f l) ≡ none

-- The events; a `T.Detail` stands for what the crate's patterns pass over. `other` is any variant
-- that only the catch-all arms reach.
pub data BdkWalletEvent (T : BdkTypes) : Type 0 where
  chain_tip_changed : BdkBlockId T → BdkBlockId T → BdkWalletEvent T
  tx_confirmed :
      T.Txid
      → T.Transaction
      → BdkConfirmationBlockTime T
      → Option (BdkConfirmationBlockTime T)
      → BdkWalletEvent T
  tx_unconfirmed : T.Txid → T.Transaction → Option (BdkConfirmationBlockTime T) → BdkWalletEvent T
  tx_replaced : T.Txid → T.Transaction → T.Detail → BdkWalletEvent T
  tx_dropped : T.Txid → T.Transaction → T.Detail → BdkWalletEvent T
  other : T.Detail → BdkWalletEvent T
