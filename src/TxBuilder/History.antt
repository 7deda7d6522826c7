-- ===== src/TxBuilder/History.antt =====
-- A history of setter calls on a `TxBuilder`, and what each setting should be after it, read off
-- the history: the last choice, or the flag if it was ever raised, or what the list collected.
mod Steps
pub mod Laws
pub mod Settings
pub mod Determined
pub mod Canonical
pub use bdk_wasm.Histories.{latest, raised, added_since}
use bdk_wasm.Base.{ℕ, Bool, true, false, Option, none, some, List, [], ◌∷◌, foldl}
use bdk_wasm.Base.Int.{ℤ}
use bdk_wasm.Bdk.Opaque.{BdkTypes}
use bdk_wasm.Types.Amount.{Amount, ScriptBuf}
use bdk_wasm.Types.Fee.{FeeRate}
use bdk_wasm.Types.Output.{OutPoint}
use bdk_wasm.Types.Psbt.{Recipient}
use bdk_wasm.TxBuilder.{TxBuilder, FeePolicy, TxOrdering, ChangeSpendPolicy}
use bdk_wasm.TxBuilder.Options

-- One call of a setter.
pub data Setter (T : BdkTypes) : Type 0 where
  set_recipients : List (Recipient T) → Setter T
  add_recipient : Recipient T → Setter T
  add_utxo : OutPoint T → Setter T
  add_utxos : List (OutPoint T) → Setter T
  only_spend_from : Setter T
  unspendable : List (OutPoint T) → Setter T
  add_unspendable : OutPoint T → Setter T
  fee_rate : FeeRate T → Setter T
  fee_absolute : Amount T → Setter T
  drain_wallet : Setter T
  drain_to : ScriptBuf T → Setter T
  exclude_below_confirmations : ℕ → Setter T
  exclude_unconfirmed : Setter T
  allow_dust : Bool → Setter T
  ordering : TxOrdering → Setter T
  change_policy : ChangeSpendPolicy → Setter T
  do_not_spend_change : Setter T
  enable_rbf : Setter T
  enable_rbf_with_sequence : ℕ → Setter T
  nlocktime : ℕ → Setter T
  version : ℤ → Setter T
  only_spend_change : Setter T
  current_height : ℕ → Setter T
  only_witness_utxo : Setter T
  include_output_redeem_witness_script : Setter T
  add_global_xpubs : Setter T
  set_exact_sequence : ℕ → Setter T
  add_data : List ℕ → Setter T

module _ {T : BdkTypes} where
  unfoldable pub apply_setter : TxBuilder T → Setter T → TxBuilder T
  unfolding Options.set_recipients Options.add_recipient Options.add_utxo Options.add_utxos
      Options.only_spend_from Options.unspendable Options.add_unspendable Options.fee_rate
      Options.fee_absolute Options.drain_wallet Options.drain_to Options.exclude_below_confirmations
      Options.exclude_unconfirmed Options.allow_dust Options.ordering Options.change_policy
      Options.do_not_spend_change Options.enable_rbf Options.enable_rbf_with_sequence
      Options.nlocktime Options.version Options.only_spend_change Options.current_height
      Options.only_witness_utxo Options.include_output_redeem_witness_script
      Options.add_global_xpubs Options.set_exact_sequence Options.add_data
  apply_setter b (Setter.set_recipients a) = Options.set_recipients b a
  apply_setter b (Setter.add_recipient a) = Options.add_recipient b a
  apply_setter b (Setter.add_utxo a) = Options.add_utxo b a
  apply_setter b (Setter.add_utxos a) = Options.add_utxos b a
  apply_setter b Setter.only_spend_from = Options.only_spend_from b
  apply_setter b (Setter.unspendable a) = Options.unspendable b a
  apply_setter b (Setter.add_unspendable a) = Options.add_unspendable b a
  apply_setter b (Setter.fee_rate a) = Options.fee_rate b a
  apply_setter b (Setter.fee_absolute a) = Options.fee_absolute b a
  apply_setter b Setter.drain_wallet = Options.drain_wallet b
  apply_setter b (Setter.drain_to a) = Options.drain_to b a
  apply_setter b (Setter.exclude_below_confirmations a) = Options.exclude_below_confirmations b a
  apply_setter b Setter.exclude_unconfirmed = Options.exclude_unconfirmed b
  apply_setter b (Setter.allow_dust a) = Options.allow_dust b a
  apply_setter b (Setter.ordering a) = Options.ordering b a
  apply_setter b (Setter.change_policy a) = Options.change_policy b a
  apply_setter b Setter.do_not_spend_change = Options.do_not_spend_change b
  apply_setter b Setter.enable_rbf = Options.enable_rbf b
  apply_setter b (Setter.enable_rbf_with_sequence a) = Options.enable_rbf_with_sequence b a
  apply_setter b (Setter.nlocktime a) = Options.nlocktime b a
  apply_setter b (Setter.version a) = Options.version b a
  apply_setter b Setter.only_spend_change = Options.only_spend_change b
  apply_setter b (Setter.current_height a) = Options.current_height b a
  apply_setter b Setter.only_witness_utxo = Options.only_witness_utxo b
  apply_setter b Setter.include_output_redeem_witness_script =
      Options.include_output_redeem_witness_script b
  apply_setter b Setter.add_global_xpubs = Options.add_global_xpubs b
  apply_setter b (Setter.set_exact_sequence a) = Options.set_exact_sequence b a
  apply_setter b (Setter.add_data a) = Options.add_data b a

  -- The calls of a history, one after the other.
  unfoldable pub build : List (Setter T) → TxBuilder T → TxBuilder T
  build hs b = foldl apply_setter b hs

  -- The choices: what a call sets a setting to, if it sets it.
  abbrev pub fee_choice : Setter T → Option (FeePolicy T)
  fee_choice (Setter.fee_rate r) = some (FeePolicy.rate r)
  fee_choice (Setter.fee_absolute a) = some (FeePolicy.absolute a)
  fee_choice _ = none

  -- `allow_dust`
  abbrev pub dust_choice : Setter T → Option Bool
  dust_choice (Setter.allow_dust d) = some d
  dust_choice _ = none

  -- `ordering`
  abbrev pub ordering_choice : Setter T → Option TxOrdering
  ordering_choice (Setter.ordering o) = some o
  ordering_choice _ = none

  -- `drain_to`
  abbrev pub drain_to_choice : Setter T → Option (ScriptBuf T)
  drain_to_choice (Setter.drain_to s) = some s
  drain_to_choice _ = none

  -- `min_confirmations`; leaving out the unconfirmed is asking for one confirmation.
  abbrev pub confirmations_choice : Setter T → Option ℕ
  confirmations_choice (Setter.exclude_below_confirmations n) = some n
  confirmations_choice Setter.exclude_unconfirmed = some 1
  confirmations_choice _ = none

  -- `change_policy`, with its two shorthands
  abbrev pub policy_choice : Setter T → Option ChangeSpendPolicy
  policy_choice (Setter.change_policy p) = some p
  policy_choice Setter.do_not_spend_change = some ChangeSpendPolicy.change_forbidden
  policy_choice Setter.only_spend_change = some ChangeSpendPolicy.only_change
  policy_choice _ = none

  -- `nlocktime`
  abbrev pub nlocktime_choice : Setter T → Option ℕ
  nlocktime_choice (Setter.nlocktime n) = some n
  nlocktime_choice _ = none

  -- `version`
  abbrev pub version_choice : Setter T → Option ℤ
  version_choice (Setter.version v) = some v
  version_choice _ = none

  -- `current_height`
  abbrev pub height_choice : Setter T → Option ℕ
  height_choice (Setter.current_height n) = some n
  height_choice _ = none

  -- `exact_sequence`
  abbrev pub sequence_choice : Setter T → Option ℕ
  sequence_choice (Setter.set_exact_sequence n) = some n
  sequence_choice _ = none

  -- `data`
  abbrev pub data_choice : Setter T → Option (List ℕ)
  data_choice (Setter.add_data bytes) = some bytes
  data_choice _ = none

  -- A flag that no call lowers again.
  abbrev pub raises_only_spend_from : Setter T → Bool
  raises_only_spend_from Setter.only_spend_from = true
  raises_only_spend_from _ = false

  -- A flag that no call lowers again.
  abbrev pub raises_drain_wallet : Setter T → Bool
  raises_drain_wallet Setter.drain_wallet = true
  raises_drain_wallet _ = false

  -- A flag that no call lowers again.
  abbrev pub raises_only_witness_utxo : Setter T → Bool
  raises_only_witness_utxo Setter.only_witness_utxo = true
  raises_only_witness_utxo _ = false

  -- A flag that no call lowers again.
  abbrev pub raises_redeem_witness_script : Setter T → Bool
  raises_redeem_witness_script Setter.include_output_redeem_witness_script = true
  raises_redeem_witness_script _ = false

  -- A flag that no call lowers again.
  abbrev pub raises_global_xpubs : Setter T → Bool
  raises_global_xpubs Setter.add_global_xpubs = true
  raises_global_xpubs _ = false

  -- The calls that replace a list, and what the others add to it.
  abbrev pub new_recipients : Setter T → Option (List (Recipient T))
  new_recipients (Setter.set_recipients rs) = some rs
  new_recipients _ = none

  -- Added recipients.
  abbrev pub more_recipients : Setter T → List (Recipient T)
  more_recipients (Setter.add_recipient r) = r ∷ []
  more_recipients _ = []

  -- Replaced outpoints.
  abbrev pub new_unspendable : Setter T → Option (List (OutPoint T))
  new_unspendable (Setter.unspendable os) = some os
  new_unspendable _ = none

  -- Added outpoints.
  abbrev pub more_unspendable : Setter T → List (OutPoint T)
  more_unspendable (Setter.add_unspendable o) = o ∷ []
  more_unspendable _ = []

  -- No call replaces the outpoints to spend.
  abbrev pub no_new_utxos : Setter T → Option (List (OutPoint T))
  no_new_utxos _ = none

  -- Outpoints to spend.
  abbrev pub more_utxos : Setter T → List (OutPoint T)
  more_utxos (Setter.add_utxo o) = o ∷ []
  more_utxos (Setter.add_utxos os) = os
  more_utxos _ = []
