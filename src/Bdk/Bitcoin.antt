-- ===== src/Bdk/Bitcoin.antt =====
-- Transactions, scripts, blocks and partially signed transactions of bitcoin, as interfaces over
-- unknown types. An error that the crate only shows is given by its text.
use bdk_wasm.Base.{ℕ, String, Bool, Option, List, Result}
use bdk_wasm.Bdk.Opaque.{BdkTypes, BdkOutPoint}

pub record TxLib (T : BdkTypes) : Type 1 where
  pub TxIn : Type 0
  pub TxOut : Type 0
  pub base_size : T.Transaction → ℕ
  pub total_size : T.Transaction → ℕ
  pub vsize : T.Transaction → ℕ
  pub compute_txid : T.Transaction → T.Txid
  pub input : T.Transaction → List TxIn
  pub output : T.Transaction → List TxOut
  pub is_coinbase : T.Transaction → Bool
  pub is_explicitly_rbf : T.Transaction → Bool
  pub is_lock_time_enabled : T.Transaction → Bool
  pub tx_in : T.Transaction → ℕ → Result String TxIn
  pub tx_out : T.Transaction → ℕ → Result String TxOut
  pub serialize : T.Transaction → List ℕ
  pub deserialize : List ℕ → Result String T.Transaction
  pub txid_from_str : String → Result String T.Txid
  pub txid_text : T.Txid → String
  pub outpoint_from_str : String → Result String (BdkOutPoint T)
  pub outpoint_text : BdkOutPoint T → String
  pub previous_output : TxIn → BdkOutPoint T
  pub script_sig : TxIn → T.Script
  pub in_base_size : TxIn → ℕ
  pub in_total_size : TxIn → ℕ
  pub sequence : TxIn → ℕ
  pub enables_lock_time : TxIn → Bool
  pub value : TxOut → T.Amount
  pub script_pubkey : TxOut → T.Script
  pub out_size : TxOut → ℕ

pub record ScriptLib (T : BdkTypes) : Type 0 where
  pub from_hex : String → Result String T.Script
  pub from_bytes : List ℕ → T.Script
  pub to_string : T.Script → String
  pub as_bytes : T.Script → List ℕ
  pub to_asm_string : T.Script → String
  pub to_hex_string : T.Script → String
  pub is_op_return : T.Script → Bool
  pub minimal_non_dust : T.Script → T.Amount
  pub minimal_non_dust_custom : T.Script → T.FeeRate → T.Amount

-- `combine` takes `&mut self`, and gives what it leaves there.
pub record PsbtLib (T : BdkTypes) : Type 0 where
  pub extract_tx_fee_rate_limit : T.Psbt → Result String T.Transaction
  pub extract_tx : T.Psbt → Result String T.Transaction
  pub extract_tx_with_fee_rate_limit : T.Psbt → T.FeeRate → Result String T.Transaction
  pub fee : T.Psbt → Result String T.Amount
  pub fee_amount : T.Psbt → Option T.Amount
  pub fee_rate : T.Psbt → Option T.FeeRate
  pub version : T.Psbt → ℕ
  pub combine : T.Psbt → T.Psbt → Result String (Unit {0}) × T.Psbt
  pub unsigned_tx : T.Psbt → T.Transaction
  pub to_string : T.Psbt → String
  pub from_str : String → Result String T.Psbt
  pub to_json : T.Psbt → Result String String
