-- ===== src/Types/Transaction.antt =====
-- src/types/transaction.rs, src/types/input.rs and the outputs of src/types/output.rs: transactions
-- with their inputs and outputs.
use Prim.Native.String.{◌++◌ as ◌<>◌}
use bdk_wasm.Base.{ℕ, String, Bool, List, map}
use bdk_wasm.Base.Results.{JsResult, js_error, map_ok, map_err}
use bdk_wasm.Bdk.Opaque.{BdkTypes}
use bdk_wasm.Bdk.Bitcoin.{TxLib}
use bdk_wasm.Types.Wrapper.{Wrapper, wrap, deref}
use bdk_wasm.Types.Amount.{Amount, ScriptBuf}
use bdk_wasm.Types.Output.{Txid, OutPoint}
use bdk_wasm.Types.Event.{Transaction}

module _ {T : BdkTypes} (L : TxLib T) where
  abbrev pub TxIn : Type 0
  TxIn = Wrapper L.TxIn

  abbrev pub TxOut : Type 0
  TxOut = Wrapper L.TxOut

module _ {T : BdkTypes} (L : TxLib T) where
  -- `Transaction::base_size`
  unfoldable pub transaction_base_size : Transaction T → ℕ
  transaction_base_size t = L.base_size (deref t)

  -- `Transaction::total_size`
  unfoldable pub transaction_total_size : Transaction T → ℕ
  transaction_total_size t = L.total_size (deref t)

  -- `Transaction::vsize`
  unfoldable pub transaction_vsize : Transaction T → ℕ
  transaction_vsize t = L.vsize (deref t)

  -- `Transaction::compute_txid`
  unfoldable pub transaction_compute_txid : Transaction T → Txid T
  transaction_compute_txid t = wrap (L.compute_txid (deref t))

  -- `Transaction::input`
  unfoldable pub transaction_input : Transaction T → List (TxIn L)
  transaction_input t = map wrap (L.input (deref t))

  -- `Transaction::output`
  unfoldable pub transaction_output : Transaction T → List (TxOut L)
  transaction_output t = map wrap (L.output (deref t))

  -- `Transaction::is_coinbase`
  unfoldable pub transaction_is_coinbase : Transaction T → Bool
  transaction_is_coinbase t = L.is_coinbase (deref t)

  -- `Transaction::is_explicitly_rbf`
  unfoldable pub transaction_is_explicitly_rbf : Transaction T → Bool
  transaction_is_explicitly_rbf t = L.is_explicitly_rbf (deref t)

  -- `Transaction::is_lock_time_enabled`
  unfoldable pub transaction_is_lock_time_enabled : Transaction T → Bool
  transaction_is_lock_time_enabled t = L.is_lock_time_enabled (deref t)

  -- `Transaction::tx_in`
  unfoldable pub transaction_tx_in : Transaction T → ℕ → JsResult (TxIn L)
  transaction_tx_in t i = map_ok wrap (js_error (L.tx_in (deref t) i))

  -- `Transaction::tx_out`
  unfoldable pub transaction_tx_out : Transaction T → ℕ → JsResult (TxOut L)
  transaction_tx_out t i = map_ok wrap (js_error (L.tx_out (deref t) i))

  -- `Transaction::to_bytes`
  unfoldable pub transaction_to_bytes : Transaction T → List ℕ
  transaction_to_bytes t = L.serialize (deref t)

  -- `Transaction::from_bytes`
  unfoldable pub transaction_from_bytes : List ℕ → JsResult (Transaction T)
  transaction_from_bytes bytes = map_ok wrap (
      map_err (λ e. record { text = "Failed to deserialize transaction: " <> e })
        (L.deserialize bytes))

  -- `Txid::from_string`
  unfoldable pub txid_from_string : String → JsResult (Txid T)
  txid_from_string text = map_ok wrap (js_error (L.txid_from_str text))

  -- `Txid::to_string`
  unfoldable pub txid_to_string : Txid T → String
  txid_to_string t = L.txid_text (deref t)

  -- `TxIn::previous_output`
  unfoldable pub input_previous_output : TxIn L → OutPoint T
  input_previous_output i = wrap (L.previous_output (deref i))

  -- `TxIn::script_sig`
  unfoldable pub input_script_sig : TxIn L → ScriptBuf T
  input_script_sig i = wrap (L.script_sig (deref i))

  -- `TxIn::base_size`
  unfoldable pub input_base_size : TxIn L → ℕ
  input_base_size i = L.in_base_size (deref i)

  -- `TxIn::total_size`
  unfoldable pub input_total_size : TxIn L → ℕ
  input_total_size i = L.in_total_size (deref i)

  -- `TxIn::sequence`
  unfoldable pub input_sequence : TxIn L → ℕ
  input_sequence i = L.sequence (deref i)

  -- `TxIn::enables_lock_time`
  unfoldable pub input_enables_lock_time : TxIn L → Bool
  input_enables_lock_time i = L.enables_lock_time (deref i)

  -- `TxOut::value`
  unfoldable pub output_value : TxOut L → Amount T
  output_value o = wrap (L.value (deref o))

  -- `TxOut::script_pubkey`
  unfoldable pub output_script_pubkey : TxOut L → ScriptBuf T
  output_script_pubkey o = wrap (L.script_pubkey (deref o))

  -- `TxOut::size`
  unfoldable pub output_size : TxOut L → ℕ
  output_size o = L.out_size (deref o)

  -- `OutPoint::from_string`
  unfoldable pub outpoint_from_string : String → JsResult (OutPoint T)
  outpoint_from_string text = map_ok wrap (js_error (L.outpoint_from_str text))

  -- `OutPoint::to_string`
  unfoldable pub outpoint_to_string : OutPoint T → String
  outpoint_to_string o = L.outpoint_text (deref o)
