-- ===== src/Types/Event/Laws.antt =====
-- What the kind of an event says of its getters.
use bdk_wasm.Base.{◌≡◌, refl, Bool, true, false, ◌&&◌, not, none, some, is_some}
use bdk_wasm.Bdk.Opaque.{BdkTypes}
use bdk_wasm.Bdk.Chain.{BdkWalletEvent}
use bdk_wasm.Types.Wrapper.{wrap}
use bdk_wasm.Types.Event.{
  WalletEvent, WalletEventKind, event_kind, event_txid, event_tx, event_old_tip, event_new_tip,
  event_block_time, event_old_block_time,
}

-- The kinds whose events are about a transaction.
abbrev pub is_tx_kind : WalletEventKind → Bool
is_tx_kind WalletEventKind.chain_tip_changed = false
is_tx_kind _ = true

abbrev pub is_confirmed_kind : WalletEventKind → Bool
is_confirmed_kind WalletEventKind.tx_confirmed = true
is_confirmed_kind _ = false

-- The kinds that may have an earlier confirmation.
abbrev pub may_have_old_time : WalletEventKind → Bool
may_have_old_time WalletEventKind.tx_confirmed = true
may_have_old_time WalletEventKind.tx_unconfirmed = true
may_have_old_time _ = false

-- A variant of a later bdk_wallet, which the crate does not know.
abbrev pub is_unknown : {T : BdkTypes} → WalletEvent T → Bool
is_unknown (wrap (BdkWalletEvent.other _)) = true
is_unknown _ = false

module _ {T : BdkTypes} where
  -- The transaction and its id are there exactly for the kinds about a transaction, the block time
  -- exactly for a confirmation, and an old block time only for a confirmation or its loss. Both
  -- tips are there exactly for an event of the kind `ChainTipChanged` that is not of an unknown
  -- variant, which has that kind too.
  pub event_kind_getters :
      (e : WalletEvent T)
      → (is_some (event_txid e) ≡ is_tx_kind (event_kind e))
        × (is_some (event_tx e) ≡ is_tx_kind (event_kind e))
        × (is_some (event_block_time e) ≡ is_confirmed_kind (event_kind e))
        × ((is_some (event_old_block_time e) && not (may_have_old_time (event_kind e))) ≡ false)
        × (is_some (event_old_tip e) ≡ (not (is_tx_kind (event_kind e)) && not (is_unknown e)))
        × (is_some (event_new_tip e) ≡ is_some (event_old_tip e))
  unfolding event_kind event_txid event_tx event_old_tip event_new_tip event_block_time
      event_old_block_time
  event_kind_getters (wrap (BdkWalletEvent.tx_confirmed _ _ _ (some _))) =
      (refl, refl, refl, refl, refl, refl)
  event_kind_getters (wrap (BdkWalletEvent.tx_confirmed _ _ _ none)) =
      (refl, refl, refl, refl, refl, refl)
  event_kind_getters (wrap (BdkWalletEvent.tx_unconfirmed _ _ (some _))) =
      (refl, refl, refl, refl, refl, refl)
  event_kind_getters (wrap (BdkWalletEvent.tx_unconfirmed _ _ none)) =
      (refl, refl, refl, refl, refl, refl)
  event_kind_getters (wrap (BdkWalletEvent.other _)) = (refl, refl, refl, refl, refl, refl)
  event_kind_getters (wrap _) = (refl, refl, refl, refl, refl, refl)
