-- ===== src/TxBuilder/Replay.antt =====
-- What `finish` comes to, as a list of calls on bdk_wallet's builder that is read off the history
-- of setter calls.
mod Steps
pub mod Settled
pub mod Laws
use bdk_wasm.Base.{
  ℕ, Bool, Option, none, some, List, [], ◌∷◌, map, map_option, Result, err, Outcome, returned,
  panicked, length, is_empty, ltb, if◌then◌else◌,
}
use bdk_wasm.Base.Int.{ℤ}
use bdk_wasm.Bdk.Kinds.{BdkTxOrdering, BdkChangeSpendPolicy}
use bdk_wasm.Bdk.Opaque.{BdkTypes, BdkOutPoint}
use bdk_wasm.Bdk.Builder.{BuilderLib}
use bdk_wasm.Types.Wrapper.{wrap, into_inner}
use bdk_wasm.Base.Results.{map_ok, map_err}
use bdk_wasm.Types.Error.{BdkError, Host}
use bdk_wasm.Types.Psbt.{Psbt, recipient_into_pair}
use bdk_wasm.TxBuilder.{TxBuilder, FeePolicy, ordering_into_bdk, policy_into_bdk}
use bdk_wasm.TxBuilder.Errors.{from_add_utxo_error, from_create_tx_error}
use bdk_wasm.TxBuilder.Finish.{Finished, too_long_error, push_limit_error}

-- A call on bdk_wallet's builder.
pub data BdkCall (T : BdkTypes) : Type 0 where
  ordering : BdkTxOrdering → BdkCall T
  set_recipients : List (T.Script × T.Amount) → BdkCall T
  unspendable : List (BdkOutPoint T) → BdkCall T
  allow_dust : Bool → BdkCall T
  fee_rate : T.FeeRate → BdkCall T
  fee_absolute : T.Amount → BdkCall T
  add_utxos : List (BdkOutPoint T) → BdkCall T
  manually_selected_only : BdkCall T
  exclude_below_confirmations : ℕ → BdkCall T
  change_policy : BdkChangeSpendPolicy → BdkCall T
  drain_wallet : BdkCall T
  drain_to : T.Script → BdkCall T
  nlocktime : ℕ → BdkCall T
  version : ℤ → BdkCall T
  current_height : ℕ → BdkCall T
  only_witness_utxo : BdkCall T
  include_output_redeem_witness_script : BdkCall T
  add_global_xpubs : BdkCall T
  set_exact_sequence : ℕ → BdkCall T
  add_data : List ℕ → BdkCall T

module _ {T : BdkTypes} (H : Host T) (L : BuilderLib T) where
  open L use {Builder}

  -- What stops a replay: an error that is reported, or a panic.
  abbrev pub Stop : Type 0
  Stop = Outcome (Result (BdkError T) (Psbt T))

  -- One call: what stops the replay, if anything, and the builder after it. Data of more than 80
  -- bytes stops it before the call.
  abbrev pub call_on : BdkCall T → Builder → Option Stop × Builder
  call_on (BdkCall.ordering o) x = (none, L.ordering o x)
  call_on (BdkCall.set_recipients rs) x = (none, L.set_recipients rs x)
  call_on (BdkCall.unspendable os) x = (none, L.unspendable os x)
  call_on (BdkCall.allow_dust d) x = (none, L.allow_dust d x)
  call_on (BdkCall.fee_rate r) x = (none, L.fee_rate r x)
  call_on (BdkCall.fee_absolute a) x = (none, L.fee_absolute a x)
  call_on (BdkCall.add_utxos os) x =
      let (refused, y) = L.add_utxos os x in
      (map_option (λ e. returned (err (from_add_utxo_error H e))) refused, y)
  call_on BdkCall.manually_selected_only x = (none, L.manually_selected_only x)
  call_on (BdkCall.exclude_below_confirmations n) x = (none, L.exclude_below_confirmations n x)
  call_on (BdkCall.change_policy p) x = (none, L.change_policy p x)
  call_on BdkCall.drain_wallet x = (none, L.drain_wallet x)
  call_on (BdkCall.drain_to s) x = (none, L.drain_to s x)
  call_on (BdkCall.nlocktime n) x = (none, L.nlocktime (L.from_consensus n) x)
  call_on (BdkCall.version v) x = (none, L.version v x)
  call_on (BdkCall.current_height n) x = elim (L.current_height n x) [
    | returned y ↦ (none, y)
    | panicked message ↦ (some (panicked message), x)
  ]
  call_on BdkCall.only_witness_utxo x = (none, L.only_witness_utxo x)
  call_on BdkCall.include_output_redeem_witness_script x =
      (none, L.include_output_redeem_witness_script x)
  call_on BdkCall.add_global_xpubs x = (none, L.add_global_xpubs x)
  call_on (BdkCall.set_exact_sequence n) x = (none, L.set_exact_sequence n x)
  call_on (BdkCall.add_data bytes) x =
      if ltb 80 (length bytes)
      then (some (returned (err (too_long_error H L bytes))), x)
      else elim (L.push_bytes bytes) [
        | none ↦ (some (returned (err (push_limit_error H L))), x)
        | some push_bytes ↦ (none, L.add_data push_bytes x)
      ]

  -- The calls in turn, up to the first that stops it, and then bdk_wallet's `finish`.
  abbrev pub replay : List (BdkCall T) → Builder → Finished H L
  replay [] x =
      let (r, w) = L.finish x in (returned (map_ok wrap (map_err (from_create_tx_error H) r)), w)
  replay (c ∷ cs) x =
      let (stopped, y) = call_on c x in
      elim stopped [ none ↦ replay cs y | some stop ↦ (stop, L.wallet_of y) ]

-- A call that is made if a flag is on, or if a setting was chosen, in front of the others.
unfoldable pub when : {A : Type 0} → Bool → A → List A → List A
when flag a rest = if flag then a ∷ rest else rest

unfoldable pub given : {A B : Type 0} → Option A → (A → B) → List B → List B
given none f rest = rest
given (some a) f rest = f a ∷ rest

module _ {T : BdkTypes} where
  abbrev pub fee_call : FeePolicy T → BdkCall T
  fee_call (FeePolicy.rate r) = BdkCall.fee_rate (into_inner r)
  fee_call (FeePolicy.absolute a) = BdkCall.fee_absolute (into_inner a)

  -- The three flags of the PSBT, and the calls after them.
  abbrev pub psbt_calls : TxBuilder T → List (BdkCall T) → List (BdkCall T)
  psbt_calls b rest = when b.only_witness_utxo BdkCall.only_witness_utxo (
      when b.include_output_redeem_witness_script BdkCall.include_output_redeem_witness_script
        (when b.add_global_xpubs BdkCall.add_global_xpubs rest))

  -- The calls of a fee bump.
  abbrev pub bump_calls : TxBuilder T → List (BdkCall T)
  bump_calls b =
      fee_call b.fee_policy
      ∷ BdkCall.ordering (ordering_into_bdk b.ordering)
      ∷ BdkCall.allow_dust b.allow_dust
      ∷ psbt_calls b []

  -- The choices of a new transaction that are made only if they were asked for.
  abbrev pub wallet_calls : TxBuilder T → List (BdkCall T) → List (BdkCall T)
  wallet_calls b rest = when b.only_spend_from BdkCall.manually_selected_only (
      given b.min_confirmations BdkCall.exclude_below_confirmations (
        given b.change_policy (λ p. BdkCall.change_policy (policy_into_bdk p))
          (when b.drain_wallet BdkCall.drain_wallet
            (given b.drain_to (λ s. BdkCall.drain_to (into_inner s)) rest))))

  abbrev pub header_calls : TxBuilder T → List (BdkCall T) → List (BdkCall T)
  header_calls b rest =
      given b.nlocktime BdkCall.nlocktime
        (given b.version BdkCall.version (given b.current_height BdkCall.current_height rest))

  abbrev pub last_calls : TxBuilder T → List (BdkCall T)
  last_calls b =
      given b.exact_sequence BdkCall.set_exact_sequence (given b.data_bytes BdkCall.add_data [])

  abbrev pub chosen_calls : TxBuilder T → List (BdkCall T)
  chosen_calls b = wallet_calls b (header_calls b (psbt_calls b (last_calls b)))

  -- The outpoints to spend, if there are any, and these choices.
  abbrev pub utxo_calls : TxBuilder T → List (BdkCall T)
  utxo_calls b =
      if is_empty b.utxos
      then chosen_calls b
      else BdkCall.add_utxos (map into_inner b.utxos) ∷ chosen_calls b

  -- The calls of a new transaction.
  abbrev pub normal_calls : TxBuilder T → List (BdkCall T)
  normal_calls b =
      BdkCall.ordering (ordering_into_bdk b.ordering)
      ∷ BdkCall.set_recipients (map recipient_into_pair b.recipients)
      ∷ BdkCall.unspendable (map into_inner b.unspendable)
      ∷ BdkCall.allow_dust b.allow_dust
      ∷ fee_call b.fee_policy
      ∷ utxo_calls b
