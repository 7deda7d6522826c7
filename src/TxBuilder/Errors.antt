-- ===== src/TxBuilder/Errors.antt =====
-- The conversions of the errors that building a transaction meets.
use bdk_wasm.Base.{String}
use bdk_wasm.Bdk.Opaque.{BdkTypes}
use bdk_wasm.Bdk.Errors.{AddUtxoError, BuildFeeBumpError, CreateTxError}
use bdk_wasm.Types.Wrapper.{wrap}
use bdk_wasm.Types.Error.{BdkErrorCode, BdkError, Host, Payload, new_error}

module _ {T : BdkTypes} (H : Host T) where
  -- `From<AddUtxoError> for BdkError`
  unfoldable pub from_add_utxo_error : AddUtxoError T → BdkError T
  from_add_utxo_error e = new_error H BdkErrorCode.unknown_utxo (H.add_utxo_text e) Payload.unit

  -- `From<BuildFeeBumpError> for BdkError`
  unfoldable pub from_build_fee_bump_error : BuildFeeBumpError T → BdkError T
  from_build_fee_bump_error e = elim e [
    | BuildFeeBumpError.unknown_utxo _ ↦ new_error H BdkErrorCode.unknown_utxo text Payload.unit
    | BuildFeeBumpError.transaction_not_found txid ↦
        new_error H BdkErrorCode.transaction_not_found text (Payload.txid txid)
    | BuildFeeBumpError.transaction_confirmed txid ↦
        new_error H BdkErrorCode.transaction_confirmed text (Payload.txid txid)
    | BuildFeeBumpError.irreplaceable_transaction txid ↦
        new_error H BdkErrorCode.irreplaceable_transaction text (Payload.txid txid)
    | BuildFeeBumpError.fee_rate_unavailable ↦
        new_error H BdkErrorCode.fee_rate_unavailable text Payload.unit
    | BuildFeeBumpError.invalid_output_index outpoint ↦
        new_error H BdkErrorCode.invalid_output_index text (Payload.outpoint outpoint)
  ]
    where
      text : String
      text = H.fee_bump_text e

  -- `From<CreateTxError> for BdkError`
  unfoldable pub from_create_tx_error : CreateTxError T → BdkError T
  from_create_tx_error e = elim e [
    | CreateTxError.descriptor _ ↦ new_error H BdkErrorCode.descriptor text Payload.unit
    | CreateTxError.policy _ ↦ new_error H BdkErrorCode.policy text Payload.unit
    | CreateTxError.spending_policy_required keychain_kind ↦
        new_error H BdkErrorCode.spending_policy_required text (Payload.keychain keychain_kind)
    | CreateTxError.version0 ↦ new_error H BdkErrorCode.version0 text Payload.unit
    | CreateTxError.version1_csv ↦ new_error H BdkErrorCode.version1_csv text Payload.unit
    | CreateTxError.lock_time _ ↦ new_error H BdkErrorCode.lock_time text Payload.unit
    | CreateTxError.rbf_sequence_csv _ ↦ new_error H BdkErrorCode.rbf_sequence_csv text Payload.unit
    | CreateTxError.fee_too_low required ↦
        new_error H BdkErrorCode.fee_too_low text (Payload.amount required)
    | CreateTxError.fee_rate_too_low required ↦
        new_error H BdkErrorCode.fee_rate_too_low text (Payload.fee_rate required)
    | CreateTxError.no_utxos_selected ↦ new_error H BdkErrorCode.no_utxos_selected text Payload.unit
    | CreateTxError.output_below_dust_limit limit ↦
        new_error H BdkErrorCode.output_below_dust_limit text (Payload.limit limit)
    | CreateTxError.coin_selection insufficient_funds ↦
        new_error H BdkErrorCode.insufficient_funds text (
          Payload.funds (record {
            needed = wrap insufficient_funds.needed;
            available = wrap insufficient_funds.available;
          }))
    | CreateTxError.no_recipients ↦ new_error H BdkErrorCode.no_recipients text Payload.unit
    | CreateTxError.psbt _ ↦ new_error H BdkErrorCode.psbt text Payload.unit
    | CreateTxError.missing_key_origin _ ↦
        new_error H BdkErrorCode.missing_key_origin text Payload.unit
    | CreateTxError.unknown_utxo ↦ new_error H BdkErrorCode.unknown_utxo text Payload.unit
    | CreateTxError.missing_non_witness_utxo outpoint ↦
        new_error H BdkErrorCode.missing_non_witness_utxo text (Payload.outpoint outpoint)
    | CreateTxError.miniscript_psbt _ ↦ new_error H BdkErrorCode.miniscript_psbt text Payload.unit
  ]
    where
      text : String
      text = H.create_tx_text e
