-- ===== src/Wallet/Session/Perform.antt =====
-- The calls of a session on the heap.
use bdk_wasm.Base.{ℕ, List, [], ◌∷◌, Outcome, returned, panicked}
use bdk_wasm.Base.RefCell.{Heap}
use bdk_wasm.Bdk.Opaque.{BdkTypes}
use bdk_wasm.Bdk.Builder.{BuilderLib}
use bdk_wasm.Bdk.Wallet.{WalletLib}
use bdk_wasm.Types.Error.{Host}
use bdk_wasm.TxBuilder.Finish.{finish}
use bdk_wasm.TxBuilder.History.{build}
use bdk_wasm.Wallet.Read
use bdk_wasm.Wallet.Change
use bdk_wasm.Wallet.Read.{SentAndReceived}
use bdk_wasm.Wallet.Change.{evicted_into_pair}
use bdk_wasm.Wallet.Session.{Query, Command, Call, AnswerOf, ReportOf, ReturnOf, Log, entered}

module _ {T : BdkTypes} {L : BuilderLib T} (V : WalletLib L) where
  abbrev pub Runs : Type 0 → Type 0
  Runs A = Heap L.Wallet → Outcome A × Heap L.Wallet

  -- A reading method of the wallet behind `h`.
  abbrev pub ask : ℕ → (q : Query V) → Runs (AnswerOf q)
  ask h (Query.start_full_scan a) = Read.start_full_scan V a h
  ask h (Query.start_sync_with_revealed_spks a) = Read.start_sync_with_revealed_spks V a h
  ask h Query.network = Read.network V h
  ask h Query.network_kind = Read.network_kind V h
  ask h Query.balance = Read.balance V h
  ask h (Query.peek_address a b) = Read.peek_address V h a b
  ask h (Query.list_unused_addresses a) = Read.list_unused_addresses V h a
  ask h Query.list_unspent = Read.list_unspent V h
  ask h Query.list_output = Read.list_output V h
  ask h (Query.get_utxo a) = Read.get_utxo V h a
  ask h Query.transactions = Read.transactions V h
  ask h (Query.get_tx a) = Read.get_tx V h a
  ask h Query.latest_checkpoint = Read.latest_checkpoint V h
  ask h Query.checkpoints = Read.checkpoints V h
  ask h (Query.public_descriptor a) = Read.public_descriptor V h a
  ask h (Query.descriptor_checksum a) = Read.descriptor_checksum V h a
  ask h (Query.derivation_index a) = Read.derivation_index V h a
  ask h (Query.next_derivation_index a) = Read.next_derivation_index V h a
  ask h (Query.sign a b) = Read.sign V h a b
  ask h (Query.finalize_psbt a b) = Read.finalize_psbt V h a b
  ask h (Query.calculate_fee a) = Read.calculate_fee V h a
  ask h (Query.calculate_fee_rate a) = Read.calculate_fee_rate V h a
  ask h (Query.sent_and_received a) = Read.sent_and_received V h a
  ask h (Query.is_mine a) = Read.is_mine V h a
  ask h (Query.derivation_of_spk a) = Read.derivation_of_spk V h a
  ask h (Query.tx_details a) = Read.tx_details V h a

module _ {T : BdkTypes} (H : Host T) {L : BuilderLib T} (V : WalletLib L) where
  -- A changing method of the wallet behind `h`.
  abbrev pub command_on : ℕ → (c : Command V) → Runs V (ReportOf c)
  command_on h (Command.apply_update a) = Change.apply_update V h a
  command_on h (Command.apply_update_events a) = Change.apply_update_events V h a
  command_on h (Command.next_unused_address a) = Change.next_unused_address V h a
  command_on h (Command.reveal_next_address a) = Change.reveal_next_address V h a
  command_on h (Command.reveal_addresses_to a b) = Change.reveal_addresses_to V h a b
  command_on h Command.take_staged = Change.take_staged V h
  command_on h (Command.mark_used a b) = Change.mark_used V h a b
  command_on h (Command.unmark_used a b) = Change.unmark_used V h a b
  command_on h (Command.insert_txout a b) = Change.insert_txout V h a b
  command_on h (Command.cancel_tx a) = Change.cancel_tx V h a
  command_on h (Command.apply_unconfirmed_txs a) = Change.apply_unconfirmed_txs V h a
  command_on h (Command.apply_evicted_txs a) = Change.apply_evicted_txs V h a
  command_on h (Command.apply_block_events a b) = Change.apply_block_events H V h a b
  command_on h (Command.apply_block_connected_to_events a b c) =
      Change.apply_block_connected_to_events H V h a b c

  abbrev pub perform : ℕ → (c : Call V) → Runs V (ReturnOf c)
  perform h (Call.query q) = ask V h q
  perform h (Call.command c) = command_on h c
  perform h (Call.finish_of start setters) = finish H L (build setters start)

  -- The calls in turn, up to the first panic.
  abbrev pub session : List (ℕ × Call V) → Runs V (Log V)
  session [] heap = (returned [], heap)
  session ((h, c) ∷ calls) heap =
      let (r, after) = perform h c heap in
      elim r [
        | returned a ↦ let (log, ends) = session calls after in (entered (h, (c, a)) log, ends)
        | panicked message ↦ (panicked message, after)
      ]
