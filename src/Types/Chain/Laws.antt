-- ===== src/Types/Chain/Laws.antt =====
-- The getters of a chain position together lose nothing of it.
use bdk_wasm.Base.{ℕ, ◌≡◌, refl, Option, none, some, is_some, map_option}
use bdk_wasm.Bdk.Opaque.{BdkTypes}
use bdk_wasm.Bdk.Chain.{BdkChainPosition, ChainLib, IsLawful}
use bdk_wasm.Types.Wrapper.{wrap, deref, into_inner}
use bdk_wasm.Types.Output.{Txid}
use bdk_wasm.Types.Block.{ConfirmationBlockTime, confirmation_block_id, block_id_height}
use bdk_wasm.Types.Chain.{
  ChainPosition, is_confirmed, confirmation_height_upper_bound, last_seen, first_seen, anchor,
  transitively,
}

-- The position that a caller reads off the four getters.
abbrev pub position_of :
    {T : BdkTypes}
    → Option (ConfirmationBlockTime T)
    → Option (Txid T)
    → Option ℕ
    → Option ℕ
    → BdkChainPosition T
position_of (some a) t first last =
    BdkChainPosition.confirmed (into_inner a) (map_option into_inner t)
position_of none t first last = BdkChainPosition.unconfirmed first last

module _ {T : BdkTypes} (C : ChainLib T) (laws : IsLawful C) where
  -- For lawful positions of bdk_wallet, a position is confirmed exactly if it has an anchor, the bound on its height is the height of
  -- the anchor's block, and the four getters of its data together determine it.
  pub chain_position_getters :
      (p : ChainPosition T)
      → (is_confirmed C p ≡ is_some (anchor p))
        × (confirmation_height_upper_bound C p
            ≡ map_option (λ a. block_id_height (confirmation_block_id a)) (anchor p))
        × (position_of (anchor p) (transitively p) (first_seen p) (last_seen p) ≡ deref p)
  unfolding is_confirmed confirmation_height_upper_bound last_seen first_seen anchor transitively
      block_id_height confirmation_block_id
  chain_position_getters (wrap (BdkChainPosition.confirmed a none)) =
      (laws.is_confirmed_confirmed a none, laws.upper_bound_confirmed a none, refl)
  chain_position_getters (wrap (BdkChainPosition.confirmed a (some t))) =
      (laws.is_confirmed_confirmed a (some t), laws.upper_bound_confirmed a (some t), refl)
  chain_position_getters (wrap (BdkChainPosition.unconfirmed f l)) =
      (laws.is_confirmed_unconfirmed f l, laws.upper_bound_unconfirmed f l, refl)
