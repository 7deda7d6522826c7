-- ===== src/Wallet/Session/Plain.antt =====
-- Sessions without cells: every handle is a wallet, and a call is a function on it, in terms of
-- bdk_wallet's methods.
use bdk_wasm.Base.{
  ℕ, ◌/◌, List, [], ◌∷◌, map, map_option, ok, Outcome, returned, panicked, ◌==◌, if◌then◌else◌,
}
use bdk_wasm.Base.Results.{js_error, map_ok, map_err, map_outcome}
use bdk_wasm.Bdk.Opaque.{BdkTypes}
use bdk_wasm.Bdk.Builder.{BuilderLib}
use bdk_wasm.Bdk.Wallet.{WalletLib}
use bdk_wasm.Types.Wrapper.{wrap, deref, into_inner}
use bdk_wasm.Types.Error.{Host}
use bdk_wasm.Types.Network.{network_from_bdk, kind_of_bdk_network}
use bdk_wasm.Types.Keychain.{keychain_from_bdk, keychain_into_bdk}
use bdk_wasm.Types.WalletTx.{unconfirmed_into_pair}
use bdk_wasm.TxBuilder.Finish.{finish_on}
use bdk_wasm.TxBuilder.History.{build}
use bdk_wasm.Wallet.Errors.{from_cannot_connect_error, from_apply_header_error}
use bdk_wasm.Wallet.Change.{evicted_into_pair}
use bdk_wasm.Wallet.Session.{Query, Command, Call, AnswerOf, ReportOf, ReturnOf, Log, entered}

module _ {T : BdkTypes} {L : BuilderLib T} {V : WalletLib L} where
  abbrev pub answer : (q : Query V) → L.Wallet → Outcome (AnswerOf q)
  answer (Query.start_full_scan a) w = returned (wrap (V.start_full_scan_at w (a / 1000)))
  answer (Query.start_sync_with_revealed_spks a) w =
      returned (wrap (V.start_sync_with_revealed_spks_at w (a / 1000)))
  answer Query.network w = returned (network_from_bdk (V.network w))
  answer Query.network_kind w = returned (kind_of_bdk_network (V.network w))
  answer Query.balance w = returned (wrap (V.balance w))
  answer (Query.peek_address a b) w = map_outcome wrap (V.peek_address w (keychain_into_bdk a) b)
  answer (Query.list_unused_addresses a) w =
      returned (map wrap (V.list_unused_addresses w (keychain_into_bdk a)))
  answer Query.list_unspent w = returned (map wrap (V.list_unspent w))
  answer Query.list_output w = returned (map wrap (V.list_output w))
  answer (Query.get_utxo a) w = returned (map_option wrap (V.get_utxo w (into_inner a)))
  answer Query.transactions w = returned (map wrap (V.transactions w))
  answer (Query.get_tx a) w = returned (map_option wrap (V.get_tx w (into_inner a)))
  answer Query.latest_checkpoint w = returned (wrap (V.latest_checkpoint w))
  answer Query.checkpoints w = returned (map wrap (V.checkpoints w))
  answer (Query.public_descriptor a) w = returned (V.public_descriptor w (keychain_into_bdk a))
  answer (Query.descriptor_checksum a) w = returned (V.descriptor_checksum w (keychain_into_bdk a))
  answer (Query.derivation_index a) w = returned (V.derivation_index w (keychain_into_bdk a))
  answer (Query.next_derivation_index a) w =
      returned (V.next_derivation_index w (keychain_into_bdk a))
  answer (Query.sign a b) w =
      returned (
        (
          js_error (V.sign w (deref a) (into_inner b)).0,
          wrap (V.sign w (deref a) (into_inner b)).1,
        ))
  answer (Query.finalize_psbt a b) w = returned (
      (
        js_error (V.finalize_psbt w (deref a) (into_inner b)).0,
        wrap (V.finalize_psbt w (deref a) (into_inner b)).1,
      ))
  answer (Query.calculate_fee a) w = returned (map_ok wrap (js_error (V.calculate_fee w (deref a))))
  answer (Query.calculate_fee_rate a) w =
      returned (map_ok wrap (js_error (V.calculate_fee_rate w (deref a))))
  answer (Query.sent_and_received a) w = returned (
      ok (record {
        sent = wrap (V.sent_and_received w (deref a)).0;
        received = wrap (V.sent_and_received w (deref a)).1;
      }))
  answer (Query.is_mine a) w = returned (V.is_mine w (into_inner a))
  answer (Query.derivation_of_spk a) w = returned (
      map_option (λ d. record { keychain = keychain_from_bdk d.0; index = d.1 })
        (V.derivation_of_spk w (into_inner a)))
  answer (Query.tx_details a) w = returned (map_option wrap (V.tx_details w (into_inner a)))

module _ {T : BdkTypes} (H : Host T) {L : BuilderLib T} {V : WalletLib L} where
  abbrev pub change : (c : Command V) → L.Wallet → ReportOf c × L.Wallet
  change (Command.apply_update a) w =
      let (r, v) = V.apply_update (into_inner a) w in ((js_error r), v)
  change (Command.apply_update_events a) w =
      let (r, v) = V.apply_update_events (into_inner a) w in ((map_ok (map wrap) (js_error r)), v)
  change (Command.next_unused_address a) w =
      let (r, v) = V.next_unused_address (keychain_into_bdk a) w in ((wrap r), v)
  change (Command.reveal_next_address a) w =
      let (r, v) = V.reveal_next_address (keychain_into_bdk a) w in ((wrap r), v)
  change (Command.reveal_addresses_to a b) w =
      let (r, v) = V.reveal_addresses_to (keychain_into_bdk a) b w in ((map wrap r), v)
  change Command.take_staged w = let (r, v) = V.take_staged w in ((map_option wrap r), v)
  change (Command.mark_used a b) w = let (r, v) = V.mark_used (keychain_into_bdk a) b w in (r, v)
  change (Command.unmark_used a b) w =
      let (r, v) = V.unmark_used (keychain_into_bdk a) b w in (r, v)
  change (Command.insert_txout a b) w = (tt, V.insert_txout (into_inner a) (into_inner b) w)
  change (Command.cancel_tx a) w = (tt, V.cancel_tx (deref a) w)
  change (Command.apply_unconfirmed_txs a) w =
      (tt, V.apply_unconfirmed_txs (map unconfirmed_into_pair a) w)
  change (Command.apply_evicted_txs a) w = (tt, V.apply_evicted_txs (map evicted_into_pair a) w)
  change (Command.apply_block_events a b) w =
      let (r, v) = V.apply_block_events (deref a) b w in
      ((map_ok (map wrap) (map_err (from_cannot_connect_error H) r)), v)
  change (Command.apply_block_connected_to_events a b c) w =
      let (r, v) = V.apply_block_connected_to_events (deref a) b (into_inner c) w in
      ((map_ok (map wrap) (map_err (from_apply_header_error H) r)), v)

  -- What a call returns and makes of a wallet.
  abbrev pub plain : (c : Call V) → L.Wallet → Outcome (ReturnOf c) × L.Wallet
  plain (Call.query q) w = (answer q w, w)
  plain (Call.command c) w = let (r, v) = change c w in (returned r, v)
  plain (Call.finish_of start setters) w = finish_on H L (build setters start) w

  -- The calls in turn on the wallets themselves.
  abbrev pub plain_session : List (ℕ × Call V) → (ℕ → L.Wallet) → Outcome (Log V) × (ℕ → L.Wallet)
  plain_session [] wallets = (returned [], wallets)
  plain_session ((h, c) ∷ calls) wallets =
      let (r, w) = plain c (wallets h) in
      let after : ℕ → L.Wallet = λ i. if i == h then w else wallets i in
      elim r [
        | returned a ↦
            let (log, ends) = plain_session calls after in (entered (h, (c, a)) log, ends)
        | panicked message ↦ (panicked message, after)
      ]
