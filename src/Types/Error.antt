-- ===== src/Types/Error.antt =====
-- src/types/error.rs: the error object that JavaScript receives.
mod Values
mod Printing
pub mod Codes
pub use Values.{InsufficientFunds, Payload}
pub use Printing.{Host}
use bdk_wasm.Base.{ℕ, String, Option, unwrap_or}
use bdk_wasm.Bdk.Opaque.{BdkTypes}

-- In the order of the source, which is the order of the numbers that JavaScript sees.
pub data BdkErrorCode : Type 0 where
  descriptor policy spending_policy_required version0 version1_csv lock_time : BdkErrorCode
  rbf_sequence_csv fee_too_low fee_rate_too_low no_utxos_selected : BdkErrorCode
  output_below_dust_limit insufficient_funds no_recipients psbt : BdkErrorCode
  missing_key_origin unknown_utxo missing_non_witness_utxo miniscript_psbt : BdkErrorCode
  transaction_not_found transaction_confirmed irreplaceable_transaction : BdkErrorCode
  fee_rate_unavailable invalid_output_index : BdkErrorCode
  base58 bech32 witness_version witness_program unknown_hrp : BdkErrorCode
  legacy_address_too_long invalid_base58_payload_length : BdkErrorCode
  invalid_legacy_prefix network_validation : BdkErrorCode
  out_of_range too_precise missing_digits input_too_large invalid_character : BdkErrorCode
  cannot_connect unexpected_connected_to_hash : BdkErrorCode
  unexpected : BdkErrorCode

pub record BdkError (T : BdkTypes) : Type 0 where
  pub code : BdkErrorCode
  pub message : String
  pub data_value : T.JsValue

-- `BdkError::new`
abbrev pub new_error : {T : BdkTypes} → Host T → BdkErrorCode → String → Payload T → BdkError T
new_error H code message payload = record {
  code = code;
  message = message;
  data_value = unwrap_or (H.to_value payload) H.undefined;
}

module _ {T : BdkTypes} where
  -- `BdkError::code`
  unfoldable pub error_code : BdkError T → BdkErrorCode
  error_code e = e.code

  -- `BdkError::message`
  unfoldable pub error_message : BdkError T → String
  error_message e = e.message

  -- `BdkError::data`
  unfoldable pub error_data : BdkError T → T.JsValue
  error_data e = e.data_value
