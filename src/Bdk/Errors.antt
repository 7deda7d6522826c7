-- ===== src/Bdk/Errors.antt =====
-- The error enums of bdk_wallet and bitcoin, in the variants that the crate's conversions name.
use bdk_wasm.Base.{ℕ}
use bdk_wasm.Bdk.Kinds.{BdkKeychainKind}
use bdk_wasm.Bdk.Opaque.{BdkTypes, BdkOutPoint}

pub data ParseAmountError (T : BdkTypes) : Type 0 where
  out_of_range too_precise missing_digits input_too_large : T.Detail → ParseAmountError T
  invalid_character other : T.Detail → ParseAmountError T

pub data ParseError (T : BdkTypes) : Type 0 where
  base58 bech32 witness_version witness_program unknown_hrp : T.Detail → ParseError T
  legacy_address_too_long invalid_base58_payload_length : T.Detail → ParseError T
  invalid_legacy_prefix network_validation other : T.Detail → ParseError T

pub record AddUtxoError (T : BdkTypes) : Type 0 where
  pub detail : T.Detail

pub data BuildFeeBumpError (T : BdkTypes) : Type 0 where
  unknown_utxo : T.Detail → BuildFeeBumpError T
  transaction_not_found transaction_confirmed : T.Txid → BuildFeeBumpError T
  irreplaceable_transaction : T.Txid → BuildFeeBumpError T
  fee_rate_unavailable : BuildFeeBumpError T
  invalid_output_index : BdkOutPoint T → BuildFeeBumpError T

pub record BdkInsufficientFunds (T : BdkTypes) : Type 0 where
  pub needed : T.Amount
  pub available : T.Amount

pub data CreateTxError (T : BdkTypes) : Type 0 where
  descriptor policy : T.Detail → CreateTxError T
  spending_policy_required : BdkKeychainKind → CreateTxError T
  version0 version1_csv : CreateTxError T
  lock_time rbf_sequence_csv : T.Detail → CreateTxError T
  fee_too_low : T.Amount → CreateTxError T
  fee_rate_too_low : T.FeeRate → CreateTxError T
  no_utxos_selected : CreateTxError T
  output_below_dust_limit : ℕ → CreateTxError T
  coin_selection : BdkInsufficientFunds T → CreateTxError T
  no_recipients : CreateTxError T
  psbt missing_key_origin : T.Detail → CreateTxError T
  unknown_utxo : CreateTxError T
  missing_non_witness_utxo : BdkOutPoint T → CreateTxError T
  miniscript_psbt : T.Detail → CreateTxError T

pub record CannotConnectError (T : BdkTypes) : Type 0 where
  pub detail : T.Detail

pub data ApplyHeaderError (T : BdkTypes) : Type 0 where
  inconsistent_blocks : ApplyHeaderError T
  cannot_connect : CannotConnectError T → ApplyHeaderError T
