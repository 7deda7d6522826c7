-- ===== src/Wallet/Change.antt =====
-- The methods that change the wallet.
use bdk_wasm.Base.{ℕ, Bool, Option, List, map, map_option, Outcome, returned, panicked, Result, ok}
use bdk_wasm.Base.Results.{JsResult, js_error, map_ok, map_err}
use bdk_wasm.Base.RefCell.{Heap, call_mut}
use bdk_wasm.Bdk.Opaque.{BdkTypes}
use bdk_wasm.Bdk.Builder.{BuilderLib}
use bdk_wasm.Bdk.Wallet.{WalletLib}
use bdk_wasm.Types.Wrapper.{Wrapper, wrap, deref, into_inner}
use bdk_wasm.Types.Error.{BdkError, Host}
use bdk_wasm.Types.Keychain.{KeychainKind, keychain_into_bdk}
use bdk_wasm.Types.Output.{Txid, OutPoint}
use bdk_wasm.Types.Block.{BlockId, EvictedTx}
use bdk_wasm.Types.Event.{WalletEvent, Transaction}
use bdk_wasm.Types.WalletTx.{UnconfirmedTx, unconfirmed_into_pair}
use bdk_wasm.Wallet.Errors.{from_cannot_connect_error, from_apply_header_error}
use bdk_wasm.TxBuilder.{TxBuilder, builder_new, builder_new_fee_bump}

-- `e` in `apply_evicted_txs`
abbrev pub evicted_into_pair : {T : BdkTypes} → EvictedTx T → T.Txid × ℕ
evicted_into_pair e = (e.txid, e.evicted_at)

module _ {T : BdkTypes} {L : BuilderLib T} (V : WalletLib L) where
  -- What a method returns, with the heap after it.
  abbrev pub Changes : Type 0 → Type 0
  Changes A = Heap L.Wallet → Outcome A × Heap L.Wallet

  -- `Wallet::apply_update`
  unfoldable pub apply_update : ℕ → Wrapper V.Update → Changes (JsResult (Unit {0}))
  apply_update h update =
      call_mut h (λ w. let (r, v) = V.apply_update (into_inner update) w in (js_error r, v))

  -- `Wallet::apply_update_events`
  unfoldable pub apply_update_events :
      ℕ → Wrapper V.Update → Changes (JsResult (List (WalletEvent T)))
  apply_update_events h update = call_mut h (λ w.
      let (r, v) = V.apply_update_events (into_inner update) w in
      (map_ok (map wrap) (js_error r), v))

  -- `Wallet::next_unused_address`
  unfoldable pub next_unused_address : ℕ → KeychainKind → Changes (Wrapper V.AddressInfo)
  next_unused_address h keychain =
      call_mut h
        (λ w. let (a, v) = V.next_unused_address (keychain_into_bdk keychain) w in (wrap a, v))

  -- `Wallet::reveal_next_address`
  unfoldable pub reveal_next_address : ℕ → KeychainKind → Changes (Wrapper V.AddressInfo)
  reveal_next_address h keychain =
      call_mut h
        (λ w. let (a, v) = V.reveal_next_address (keychain_into_bdk keychain) w in (wrap a, v))

  -- `Wallet::reveal_addresses_to`
  unfoldable pub reveal_addresses_to : ℕ → KeychainKind → ℕ → Changes (List (Wrapper V.AddressInfo))
  reveal_addresses_to h keychain index = call_mut h (λ w.
      let (infos, v) = V.reveal_addresses_to (keychain_into_bdk keychain) index w in
      (map wrap infos, v))

  -- `Wallet::take_staged`
  unfoldable pub take_staged : ℕ → Changes (Option (Wrapper V.ChangeSet))
  take_staged h = call_mut h (λ w. let (c, v) = V.take_staged w in (map_option wrap c, v))

  -- `Wallet::mark_used`
  unfoldable pub mark_used : ℕ → KeychainKind → ℕ → Changes Bool
  mark_used h keychain index = call_mut h (V.mark_used (keychain_into_bdk keychain) index)

  -- `Wallet::unmark_used`
  unfoldable pub unmark_used : ℕ → KeychainKind → ℕ → Changes Bool
  unmark_used h keychain index = call_mut h (V.unmark_used (keychain_into_bdk keychain) index)

  -- `Wallet::insert_txout`
  unfoldable pub insert_txout : ℕ → OutPoint T → Wrapper V.TxOut → Changes (Unit {0})
  insert_txout h outpoint txout =
      call_mut h (λ w. (tt, V.insert_txout (into_inner outpoint) (into_inner txout) w))

  -- `Wallet::cancel_tx`
  unfoldable pub cancel_tx : ℕ → Transaction T → Changes (Unit {0})
  cancel_tx h tx = call_mut h (λ w. (tt, V.cancel_tx (deref tx) w))

  -- `Wallet::apply_unconfirmed_txs`
  unfoldable pub apply_unconfirmed_txs : ℕ → List (UnconfirmedTx T) → Changes (Unit {0})
  apply_unconfirmed_txs h txs =
      call_mut h (λ w. (tt, V.apply_unconfirmed_txs (map unconfirmed_into_pair txs) w))

  -- `Wallet::apply_evicted_txs`
  unfoldable pub apply_evicted_txs : ℕ → List (EvictedTx T) → Changes (Unit {0})
  apply_evicted_txs h evicted =
      call_mut h (λ w. (tt, V.apply_evicted_txs (map evicted_into_pair evicted) w))

module _ {T : BdkTypes} (H : Host T) {L : BuilderLib T} (V : WalletLib L) where
  -- `Wallet::apply_block_events`
  unfoldable pub apply_block_events :
      ℕ → Wrapper V.Block → ℕ → Changes V (Result (BdkError T) (List (WalletEvent T)))
  apply_block_events h block height = call_mut h (λ w.
      let (r, v) = V.apply_block_events (deref block) height w in
      (map_ok (map wrap) (map_err (from_cannot_connect_error H) r), v))

  -- `Wallet::apply_block_connected_to_events`
  unfoldable pub apply_block_connected_to_events :
      ℕ → Wrapper V.Block → ℕ → BlockId T → Changes V (Result (BdkError T) (List (WalletEvent T)))
  apply_block_connected_to_events h block height connected_to = call_mut h (λ w.
      let (r, v) =
        V.apply_block_connected_to_events (deref block) height (into_inner connected_to) w in
      (map_ok (map wrap) (map_err (from_apply_header_error H) r), v))

module _ {T : BdkTypes} (L : BuilderLib T) where
  -- `Wallet::build_tx`: the builder shares the wallet's cell.
  unfoldable pub build_tx : ℕ → Outcome (TxBuilder T)
  build_tx h = builder_new L h

  -- `Wallet::build_fee_bump`, which never yields an error
  unfoldable pub build_fee_bump : ℕ → Txid T → Outcome (JsResult (TxBuilder T))
  build_fee_bump h txid = elim (builder_new_fee_bump L h (into_inner txid)) [
    | returned b ↦ returned (ok b)
    | panicked message ↦ panicked message
  ]
