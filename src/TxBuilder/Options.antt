-- ===== src/TxBuilder/Options.antt =====
-- The setters of `TxBuilder`, which take the builder and return it.
use bdk_wasm.Base.{ℕ, Bool, true, some, List, [], ◌∷◌, ◌++◌}
use bdk_wasm.Base.Int.{ℤ}
use bdk_wasm.Bdk.Opaque.{BdkTypes}
use bdk_wasm.Types.Amount.{Amount, ScriptBuf}
use bdk_wasm.Types.Fee.{FeeRate}
use bdk_wasm.Types.Output.{OutPoint}
use bdk_wasm.Types.Psbt.{Recipient}
use bdk_wasm.TxBuilder.{TxBuilder, FeePolicy, TxOrdering, ChangeSpendPolicy}

module _ {T : BdkTypes} where
  unfoldable pub set_recipients : TxBuilder T → List (Recipient T) → TxBuilder T
  set_recipients b recipients = record b { recipients = recipients }

  unfoldable pub add_recipient : TxBuilder T → Recipient T → TxBuilder T
  add_recipient b recipient = record b { recipients = b.recipients ++ (recipient ∷ []) }

  unfoldable pub add_utxo : TxBuilder T → OutPoint T → TxBuilder T
  add_utxo b outpoint = record b { utxos = b.utxos ++ (outpoint ∷ []) }

  unfoldable pub add_utxos : TxBuilder T → List (OutPoint T) → TxBuilder T
  add_utxos b outpoints = record b { utxos = b.utxos ++ outpoints }

  unfoldable pub only_spend_from : TxBuilder T → TxBuilder T
  only_spend_from b = record b { only_spend_from = true }

  unfoldable pub unspendable : TxBuilder T → List (OutPoint T) → TxBuilder T
  unspendable b outpoints = record b { unspendable = outpoints }

  unfoldable pub add_unspendable : TxBuilder T → OutPoint T → TxBuilder T
  add_unspendable b outpoint = record b { unspendable = b.unspendable ++ (outpoint ∷ []) }

  unfoldable pub fee_rate : TxBuilder T → FeeRate T → TxBuilder T
  fee_rate b rate = record b { fee_policy = FeePolicy.rate rate }

  unfoldable pub fee_absolute : TxBuilder T → Amount T → TxBuilder T
  fee_absolute b fee = record b { fee_policy = FeePolicy.absolute fee }

  unfoldable pub drain_wallet : TxBuilder T → TxBuilder T
  drain_wallet b = record b { drain_wallet = true }

  unfoldable pub drain_to : TxBuilder T → ScriptBuf T → TxBuilder T
  drain_to b script_pubkey = record b { drain_to = some script_pubkey }

  unfoldable pub exclude_below_confirmations : TxBuilder T → ℕ → TxBuilder T
  exclude_below_confirmations b min_confirms = record b { min_confirmations = some min_confirms }

  unfoldable pub exclude_unconfirmed : TxBuilder T → TxBuilder T
  unfolding exclude_below_confirmations
  exclude_unconfirmed b = exclude_below_confirmations b 1

  unfoldable pub allow_dust : TxBuilder T → Bool → TxBuilder T
  allow_dust b allowed = record b { allow_dust = allowed }

  unfoldable pub ordering : TxBuilder T → TxOrdering → TxBuilder T
  ordering b order = record b { ordering = order }

  unfoldable pub change_policy : TxBuilder T → ChangeSpendPolicy → TxBuilder T
  change_policy b policy = record b { change_policy = some policy }

  unfoldable pub do_not_spend_change : TxBuilder T → TxBuilder T
  do_not_spend_change b = record b { change_policy = some ChangeSpendPolicy.change_forbidden }

  unfoldable pub enable_rbf : TxBuilder T → TxBuilder T
  enable_rbf b = b

  unfoldable pub enable_rbf_with_sequence : TxBuilder T → ℕ → TxBuilder T
  enable_rbf_with_sequence b _ = b

  unfoldable pub nlocktime : TxBuilder T → ℕ → TxBuilder T
  nlocktime b locktime = record b { nlocktime = some locktime }

  unfoldable pub version : TxBuilder T → ℤ → TxBuilder T
  version b number = record b { version = some number }

  unfoldable pub only_spend_change : TxBuilder T → TxBuilder T
  only_spend_change b = record b { change_policy = some ChangeSpendPolicy.only_change }

  unfoldable pub current_height : TxBuilder T → ℕ → TxBuilder T
  current_height b height = record b { current_height = some height }

  unfoldable pub only_witness_utxo : TxBuilder T → TxBuilder T
  only_witness_utxo b = record b { only_witness_utxo = true }

  unfoldable pub include_output_redeem_witness_script : TxBuilder T → TxBuilder T
  include_output_redeem_witness_script b = record b { include_output_redeem_witness_script = true }

  unfoldable pub add_global_xpubs : TxBuilder T → TxBuilder T
  add_global_xpubs b = record b { add_global_xpubs = true }

  unfoldable pub set_exact_sequence : TxBuilder T → ℕ → TxBuilder T
  set_exact_sequence b n_sequence = record b { exact_sequence = some n_sequence }

  unfoldable pub add_data : TxBuilder T → List ℕ → TxBuilder T
  add_data b bytes = record b { data_bytes = some bytes }
