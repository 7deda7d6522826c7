-- ===== src/TxBuilder/History/Settings.antt =====
-- Which setting a setter is about, and the calls of a history that are about one setting.
use bdk_wasm.Base.{ℕ, Bool, false, Option, none, some, List, [], ◌∷◌, ◌==◌, if◌then◌else◌}
use bdk_wasm.Bdk.Opaque.{BdkTypes}
use bdk_wasm.TxBuilder.History.{Setter}

-- Two setters are about one setting where the later one builds on the earlier or overrides it.
pub data Setting : Type 0 where
  recipients utxos only_spend_from unspendable fee drain_wallet drain_to : Setting
  confirmations dust ordering change_policy nlocktime version height witness_utxo : Setting
  redeem_script global_xpubs sequence data_bytes : Setting

abbrev pub number : Setting → ℕ
number Setting.recipients = 1
number Setting.utxos = 2
number Setting.only_spend_from = 3
number Setting.unspendable = 4
number Setting.fee = 5
number Setting.drain_wallet = 6
number Setting.drain_to = 7
number Setting.confirmations = 8
number Setting.dust = 9
number Setting.ordering = 10
number Setting.change_policy = 11
number Setting.nlocktime = 12
number Setting.version = 13
number Setting.height = 14
number Setting.witness_utxo = 15
number Setting.redeem_script = 16
number Setting.global_xpubs = 17
number Setting.sequence = 18
number Setting.data_bytes = 19

module _ {T : BdkTypes} where
  -- The two calls of `enable_rbf` are about none.
  abbrev pub setting_of : Setter T → Option Setting
  setting_of (Setter.set_recipients _) = some Setting.recipients
  setting_of (Setter.add_recipient _) = some Setting.recipients
  setting_of (Setter.add_utxo _) = some Setting.utxos
  setting_of (Setter.add_utxos _) = some Setting.utxos
  setting_of Setter.only_spend_from = some Setting.only_spend_from
  setting_of (Setter.unspendable _) = some Setting.unspendable
  setting_of (Setter.add_unspendable _) = some Setting.unspendable
  setting_of (Setter.fee_rate _) = some Setting.fee
  setting_of (Setter.fee_absolute _) = some Setting.fee
  setting_of Setter.drain_wallet = some Setting.drain_wallet
  setting_of (Setter.drain_to _) = some Setting.drain_to
  setting_of (Setter.exclude_below_confirmations _) = some Setting.confirmations
  setting_of Setter.exclude_unconfirmed = some Setting.confirmations
  setting_of (Setter.allow_dust _) = some Setting.dust
  setting_of (Setter.ordering _) = some Setting.ordering
  setting_of (Setter.change_policy _) = some Setting.change_policy
  setting_of Setter.do_not_spend_change = some Setting.change_policy
  setting_of Setter.enable_rbf = none
  setting_of (Setter.enable_rbf_with_sequence _) = none
  setting_of (Setter.nlocktime _) = some Setting.nlocktime
  setting_of (Setter.version _) = some Setting.version
  setting_of Setter.only_spend_change = some Setting.change_policy
  setting_of (Setter.current_height _) = some Setting.height
  setting_of Setter.only_witness_utxo = some Setting.witness_utxo
  setting_of Setter.include_output_redeem_witness_script = some Setting.redeem_script
  setting_of Setter.add_global_xpubs = some Setting.global_xpubs
  setting_of (Setter.set_exact_sequence _) = some Setting.sequence
  setting_of (Setter.add_data _) = some Setting.data_bytes

  abbrev pub is_about : Setting → Setter T → Bool
  is_about x s = elim (setting_of s) [ none ↦ false | some y ↦ number y == number x ]

  abbrev pub calls_about : Setting → List (Setter T) → List (Setter T)
  calls_about x [] = []
  calls_about x (s ∷ hs) = if is_about x s then s ∷ calls_about x hs else calls_about x hs
