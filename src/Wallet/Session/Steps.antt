-- ===== src/Wallet/Session/Steps.antt =====
-- What one call of a session does, to its wallet and to the others.
use bdk_wasm.Types.Wrapper.{wrap}
use bdk_wasm.Types.Keychain.{keychain_into_bdk}
use bdk_wasm.Base.{
  String, panicked, ℕ, ◌<◌, ◌≡◌, refl, Outcome, returned, ◌==◌, if◌then◌else◌, arith,
}
use bdk_wasm.Base.RefCell.{Borrow, Heap, with_borrow_mut, with_borrow, call_mut, call_ref}
use bdk_wasm.Bdk.Opaque.{BdkTypes}
use bdk_wasm.Bdk.Builder.{BuilderLib, TakesHeights}
use bdk_wasm.Bdk.Wallet.{WalletLib, max_index, PeeksIndices}
use bdk_wasm.Types.Error.{Host}
use bdk_wasm.TxBuilder.Finish.Panics.{
  FitsHeight, MadeFrom, HasMode-returns, new-HasMode, build-HasMode, finish_returns,
}
use bdk_wasm.TxBuilder.History.{build}
use bdk_wasm.Wallet.Read
use bdk_wasm.Wallet.Change
use bdk_wasm.Wallet.Read.{SentAndReceived}
use bdk_wasm.Wallet.Change.{evicted_into_pair}
use bdk_wasm.Wallet.Session.{Query, Command, Call, AnswerOf, ReturnOf}
use bdk_wasm.Wallet.Session.Perform.{ask, command_on, perform}
use bdk_wasm.Wallet.Session.Plain.{answer, change, plain}

-- The call returned what `f` does on the wallet in the cell, left what `f` leaves there, freed the
-- cell, and did not touch the others.
abbrev pub DoesTo : {W A : Type 0} → ℕ → (W → Outcome A × W) → Heap W → Outcome A × Heap W → Type 0
DoesTo h f heap (r, after) =
    (r ≡ (f (heap h).value).0)
    × ((after h).value ≡ (f (heap h).value).1)
    × ((after h).state ≡ Borrow.unused)
    × ((i : ℕ) → after i ≡ (if i == h then after h else heap i))

module _ {W A : Type 0} (h : ℕ) (heap : Heap W) (free : (heap h).state ≡ Borrow.unused) where
  call_mut-DoesTo :
      (f : W → A × W) → DoesTo h (λ w. (returned (f w).0, (f w).1)) heap (call_mut h f heap)
  unfolding with_borrow_mut
  call_mut-DoesTo f = (ground arith, ground arith, ground arith, λ i. ground arith)

  with_borrow-DoesTo :
      (f : W → Outcome A) (a : A)
      → f (heap h).value ≡ returned a
      → DoesTo h (λ w. (f w, w)) heap (with_borrow h f heap)
  unfolding with_borrow
  with_borrow-DoesTo f a e = (ground arith, ground arith, ground (arith, e), λ i. ground arith)

  call_ref-DoesTo : (f : W → A) → DoesTo h (λ w. (returned (f w), w)) heap (call_ref h f heap)
  unfolding with_borrow
  call_ref-DoesTo f = (ground arith, ground arith, ground arith, λ i. ground arith)

module _ {W A : Type 0} (h : ℕ) (f : W → Outcome A × W) (heap : Heap W)
    (out : Outcome A × Heap W) where
  pub DoesTo-free :
      DoesTo h f heap out
      → ((i : ℕ) → (heap i).state ≡ Borrow.unused)
      → (i : ℕ) → (out.1 i).state ≡ Borrow.unused
  DoesTo-free (_, _, state, others) free i = rw (others i) (ground (arith, free i))

  pub DoesTo-value :
      DoesTo h f heap out
      → (i : ℕ) → (out.1 i).value ≡ (if i == h then (f (heap h).value).1 else (heap i).value)
  DoesTo-value (_, value, _, others) i = rw (others i) (ground (arith, value))

module _ {T : BdkTypes} {L : BuilderLib T} (V : WalletLib L) where
  -- The call does not make bdk_wallet panic: an address is peeked at an index of BIP32, and a builder
  -- that is finished was made from the wallet that the call is addressed to, with no height that
  -- bdk_wallet does not take.
  abbrev pub IsProper : ℕ × Call V → Type 0
  IsProper (_, Call.query (Query.peek_address _ index)) = index < max_index
  IsProper (h, Call.finish_of start setters) = MadeFrom L h start × FitsHeight (build setters start)
  IsProper (_, _) = Unit

  -- A query that returns leaves the wallet as it is.
  pub ask-DoesTo :
      (h : ℕ) (q : Query V) (heap : Heap L.Wallet) (a : AnswerOf q)
      → answer q (heap h).value ≡ returned a
      → (heap h).state ≡ Borrow.unused
      → DoesTo h (λ w. (answer q w, w)) heap (ask V h q heap)
  unfolding Read.start_full_scan Read.start_sync_with_revealed_spks Read.network Read.network_kind
      Read.balance Read.peek_address Read.list_unused_addresses Read.list_unspent Read.list_output
      Read.get_utxo Read.transactions Read.get_tx Read.latest_checkpoint Read.checkpoints
      Read.public_descriptor Read.descriptor_checksum Read.derivation_index
      Read.next_derivation_index Read.sign Read.finalize_psbt Read.calculate_fee
      Read.calculate_fee_rate Read.sent_and_received Read.is_mine Read.derivation_of_spk
      Read.tx_details
  ask-DoesTo h (Query.start_full_scan _) heap a e free = call_ref-DoesTo h heap free _
  ask-DoesTo h (Query.start_sync_with_revealed_spks _) heap a e free = call_ref-DoesTo h heap free _
  ask-DoesTo h Query.network heap a e free = call_ref-DoesTo h heap free _
  ask-DoesTo h Query.network_kind heap a e free = call_ref-DoesTo h heap free _
  ask-DoesTo h Query.balance heap a e free = call_ref-DoesTo h heap free _
  ask-DoesTo h (Query.peek_address _ _) heap a e free = with_borrow-DoesTo h heap free _ a e
  ask-DoesTo h (Query.list_unused_addresses _) heap a e free = call_ref-DoesTo h heap free _
  ask-DoesTo h Query.list_unspent heap a e free = call_ref-DoesTo h heap free _
  ask-DoesTo h Query.list_output heap a e free = call_ref-DoesTo h heap free _
  ask-DoesTo h (Query.get_utxo _) heap a e free = call_ref-DoesTo h heap free _
  ask-DoesTo h Query.transactions heap a e free = call_ref-DoesTo h heap free _
  ask-DoesTo h (Query.get_tx _) heap a e free = call_ref-DoesTo h heap free _
  ask-DoesTo h Query.latest_checkpoint heap a e free = call_ref-DoesTo h heap free _
  ask-DoesTo h Query.checkpoints heap a e free = call_ref-DoesTo h heap free _
  ask-DoesTo h (Query.public_descriptor _) heap a e free = call_ref-DoesTo h heap free _
  ask-DoesTo h (Query.descriptor_checksum _) heap a e free = call_ref-DoesTo h heap free _
  ask-DoesTo h (Query.derivation_index _) heap a e free = call_ref-DoesTo h heap free _
  ask-DoesTo h (Query.next_derivation_index _) heap a e free = call_ref-DoesTo h heap free _
  ask-DoesTo h (Query.sign _ _) heap a e free = call_ref-DoesTo h heap free _
  ask-DoesTo h (Query.finalize_psbt _ _) heap a e free = call_ref-DoesTo h heap free _
  ask-DoesTo h (Query.calculate_fee _) heap a e free = call_ref-DoesTo h heap free _
  ask-DoesTo h (Query.calculate_fee_rate _) heap a e free = call_ref-DoesTo h heap free _
  ask-DoesTo h (Query.sent_and_received _) heap a e free = call_ref-DoesTo h heap free _
  ask-DoesTo h (Query.is_mine _) heap a e free = call_ref-DoesTo h heap free _
  ask-DoesTo h (Query.derivation_of_spk _) heap a e free = call_ref-DoesTo h heap free _
  ask-DoesTo h (Query.tx_details _) heap a e free = call_ref-DoesTo h heap free _

  -- A query on which bdk_wallet panics.
  pub ask_panics :
      (h : ℕ) (q : Query V) (heap : Heap L.Wallet) (m : String)
      → answer q (heap h).value ≡ panicked m
      → (heap h).state ≡ Borrow.unused
      → (ask V h q heap).0 ≡ panicked m
  unfolding Read.peek_address with_borrow
  ask_panics h (Query.peek_address _ _) heap m e free = ground (arith, e, free)
  ask_panics h _ heap m e free = absurd (cc)

module _ {T : BdkTypes} {L : BuilderLib T} (V : WalletLib L) (peeks : PeeksIndices V) where
  -- A query is answered, at an index of BIP32.
  pub answer_returns :
      (h : ℕ) (q : Query V) (w : L.Wallet)
      → IsProper V (h, Call.query q)
      → (a : AnswerOf q) × (answer q w ≡ returned a)
  answer_returns h (Query.peek_address keychain index) w proper =
      let (a, e) = peeks w (keychain_into_bdk keychain) index proper in (wrap a, rw e)
  answer_returns h _ w proper = (_, refl)

module _ {T : BdkTypes} (H : Host T) {L : BuilderLib T} (V : WalletLib L) where
  pub command-DoesTo :
      (h : ℕ) (c : Command V) (heap : Heap L.Wallet)
      → (heap h).state ≡ Borrow.unused
      → DoesTo h (λ w. (returned (change H c w).0, (change H c w).1)) heap (command_on H V h c heap)
  unfolding Change.apply_update Change.apply_update_events Change.next_unused_address
      Change.reveal_next_address Change.reveal_addresses_to Change.take_staged Change.mark_used
      Change.unmark_used Change.insert_txout Change.cancel_tx Change.apply_unconfirmed_txs
      Change.apply_evicted_txs Change.apply_block_events Change.apply_block_connected_to_events
  command-DoesTo h (Command.apply_update _) heap free = call_mut-DoesTo h heap free _
  command-DoesTo h (Command.apply_update_events _) heap free = call_mut-DoesTo h heap free _
  command-DoesTo h (Command.next_unused_address _) heap free = call_mut-DoesTo h heap free _
  command-DoesTo h (Command.reveal_next_address _) heap free = call_mut-DoesTo h heap free _
  command-DoesTo h (Command.reveal_addresses_to _ _) heap free = call_mut-DoesTo h heap free _
  command-DoesTo h Command.take_staged heap free = call_mut-DoesTo h heap free _
  command-DoesTo h (Command.mark_used _ _) heap free = call_mut-DoesTo h heap free _
  command-DoesTo h (Command.unmark_used _ _) heap free = call_mut-DoesTo h heap free _
  command-DoesTo h (Command.insert_txout _ _) heap free = call_mut-DoesTo h heap free _
  command-DoesTo h (Command.cancel_tx _) heap free = call_mut-DoesTo h heap free _
  command-DoesTo h (Command.apply_unconfirmed_txs _) heap free = call_mut-DoesTo h heap free _
  command-DoesTo h (Command.apply_evicted_txs _) heap free = call_mut-DoesTo h heap free _
  command-DoesTo h (Command.apply_block_events _ _) heap free = call_mut-DoesTo h heap free _
  command-DoesTo h (Command.apply_block_connected_to_events _ _ _) heap free =
      call_mut-DoesTo h heap free _

module _ {T : BdkTypes} (H : Host T) {L : BuilderLib T} (V : WalletLib L) (takes : TakesHeights L)
    (peeks : PeeksIndices V) where
  pub perform-DoesTo :
      (h : ℕ) (c : Call V) (heap : Heap L.Wallet)
      → IsProper V (h, c)
      → (heap h).state ≡ Borrow.unused
      → DoesTo h (plain H c) heap (perform H V h c heap)
  perform-DoesTo h (Call.query q) heap proper free =
      let (a, e) = answer_returns V peeks h q (heap h).value proper in
      ask-DoesTo V h q heap a e free
  perform-DoesTo h (Call.command c) heap _ free = command-DoesTo H V h c heap free
  perform-DoesTo h (Call.finish_of start setters) heap (made, fits) free =
      let (_, result, value, state, others) =
        finish_returns H L takes h start setters heap made fits free in
      (result, value, state, others)

  pub plain_returns :
      (h : ℕ) (c : Call V) (w : L.Wallet)
      → IsProper V (h, c)
      → (a : ReturnOf c) × ((plain H c w).0 ≡ returned a)
  plain_returns h (Call.query q) w proper = answer_returns V peeks h q w proper
  plain_returns h (Call.command c) w _ = ((change H c w).0, refl)
  plain_returns h (Call.finish_of start setters) w (made, fits) =
      HasMode-returns H L takes h (build setters start) w
        (build-HasMode H L h setters start (new-HasMode L h start made)) fits
