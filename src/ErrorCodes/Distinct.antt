-- ===== src/ErrorCodes/Distinct.antt =====
-- Within one kind of call every failure has a code of its own.
use bdk_wasm.Base.{ℕ, ◌≡◌, refl}
use bdk_wasm.Bdk.Opaque.{BdkTypes}
use bdk_wasm.Bdk.Errors.{ParseAmountError, ParseError, BuildFeeBumpError, CreateTxError}
use bdk_wasm.Bdk.Errors.{ApplyHeaderError}
use bdk_wasm.Types.Error.{BdkErrorCode, Host}
use bdk_wasm.Types.Amount.{from_parse_amount_error}
use bdk_wasm.Types.Address.{from_parse_error}
use bdk_wasm.TxBuilder.Errors.{from_build_fee_bump_error, from_create_tx_error}
use bdk_wasm.Wallet.Errors.{from_apply_header_error}

-- The variant of an error, by its place in the enum.
abbrev pub create_tx_variant : {T : BdkTypes} → CreateTxError T → ℕ
create_tx_variant (CreateTxError.descriptor _) = 0
create_tx_variant (CreateTxError.policy _) = 1
create_tx_variant (CreateTxError.spending_policy_required _) = 2
create_tx_variant CreateTxError.version0 = 3
create_tx_variant CreateTxError.version1_csv = 4
create_tx_variant (CreateTxError.lock_time _) = 5
create_tx_variant (CreateTxError.rbf_sequence_csv _) = 6
create_tx_variant (CreateTxError.fee_too_low _) = 7
create_tx_variant (CreateTxError.fee_rate_too_low _) = 8
create_tx_variant CreateTxError.no_utxos_selected = 9
create_tx_variant (CreateTxError.output_below_dust_limit _) = 10
create_tx_variant (CreateTxError.coin_selection _) = 11
create_tx_variant CreateTxError.no_recipients = 12
create_tx_variant (CreateTxError.psbt _) = 13
create_tx_variant (CreateTxError.missing_key_origin _) = 14
create_tx_variant CreateTxError.unknown_utxo = 15
create_tx_variant (CreateTxError.missing_non_witness_utxo _) = 16
create_tx_variant (CreateTxError.miniscript_psbt _) = 17

abbrev pub fee_bump_variant : {T : BdkTypes} → BuildFeeBumpError T → ℕ
fee_bump_variant (BuildFeeBumpError.unknown_utxo _) = 0
fee_bump_variant (BuildFeeBumpError.transaction_not_found _) = 1
fee_bump_variant (BuildFeeBumpError.transaction_confirmed _) = 2
fee_bump_variant (BuildFeeBumpError.irreplaceable_transaction _) = 3
fee_bump_variant BuildFeeBumpError.fee_rate_unavailable = 4
fee_bump_variant (BuildFeeBumpError.invalid_output_index _) = 5

abbrev pub address_variant : {T : BdkTypes} → ParseError T → ℕ
address_variant (ParseError.base58 _) = 0
address_variant (ParseError.bech32 _) = 1
address_variant (ParseError.witness_version _) = 2
address_variant (ParseError.witness_program _) = 3
address_variant (ParseError.unknown_hrp _) = 4
address_variant (ParseError.legacy_address_too_long _) = 5
address_variant (ParseError.invalid_base58_payload_length _) = 6
address_variant (ParseError.invalid_legacy_prefix _) = 7
address_variant (ParseError.network_validation _) = 8
address_variant (ParseError.other _) = 9

abbrev pub amount_variant : {T : BdkTypes} → ParseAmountError T → ℕ
amount_variant (ParseAmountError.out_of_range _) = 0
amount_variant (ParseAmountError.too_precise _) = 1
amount_variant (ParseAmountError.missing_digits _) = 2
amount_variant (ParseAmountError.input_too_large _) = 3
amount_variant (ParseAmountError.invalid_character _) = 4
amount_variant (ParseAmountError.other _) = 5

abbrev pub header_variant : {T : BdkTypes} → ApplyHeaderError T → ℕ
header_variant ApplyHeaderError.inconsistent_blocks = 0
header_variant (ApplyHeaderError.cannot_connect _) = 1

-- The variant that a code stands for: what JavaScript can recover.
abbrev pub create_tx_of_code : BdkErrorCode → ℕ
create_tx_of_code BdkErrorCode.descriptor = 0
create_tx_of_code BdkErrorCode.policy = 1
create_tx_of_code BdkErrorCode.spending_policy_required = 2
create_tx_of_code BdkErrorCode.version0 = 3
create_tx_of_code BdkErrorCode.version1_csv = 4
create_tx_of_code BdkErrorCode.lock_time = 5
create_tx_of_code BdkErrorCode.rbf_sequence_csv = 6
create_tx_of_code BdkErrorCode.fee_too_low = 7
create_tx_of_code BdkErrorCode.fee_rate_too_low = 8
create_tx_of_code BdkErrorCode.no_utxos_selected = 9
create_tx_of_code BdkErrorCode.output_below_dust_limit = 10
create_tx_of_code BdkErrorCode.insufficient_funds = 11
create_tx_of_code BdkErrorCode.no_recipients = 12
create_tx_of_code BdkErrorCode.psbt = 13
create_tx_of_code BdkErrorCode.missing_key_origin = 14
create_tx_of_code BdkErrorCode.unknown_utxo = 15
create_tx_of_code BdkErrorCode.missing_non_witness_utxo = 16
create_tx_of_code BdkErrorCode.miniscript_psbt = 17
create_tx_of_code _ = 18

abbrev pub fee_bump_of_code : BdkErrorCode → ℕ
fee_bump_of_code BdkErrorCode.unknown_utxo = 0
fee_bump_of_code BdkErrorCode.transaction_not_found = 1
fee_bump_of_code BdkErrorCode.transaction_confirmed = 2
fee_bump_of_code BdkErrorCode.irreplaceable_transaction = 3
fee_bump_of_code BdkErrorCode.fee_rate_unavailable = 4
fee_bump_of_code BdkErrorCode.invalid_output_index = 5
fee_bump_of_code _ = 6

abbrev pub address_of_code : BdkErrorCode → ℕ
address_of_code BdkErrorCode.base58 = 0
address_of_code BdkErrorCode.bech32 = 1
address_of_code BdkErrorCode.witness_version = 2
address_of_code BdkErrorCode.witness_program = 3
address_of_code BdkErrorCode.unknown_hrp = 4
address_of_code BdkErrorCode.legacy_address_too_long = 5
address_of_code BdkErrorCode.invalid_base58_payload_length = 6
address_of_code BdkErrorCode.invalid_legacy_prefix = 7
address_of_code BdkErrorCode.network_validation = 8
address_of_code BdkErrorCode.unexpected = 9
address_of_code _ = 10

abbrev pub amount_of_code : BdkErrorCode → ℕ
amount_of_code BdkErrorCode.out_of_range = 0
amount_of_code BdkErrorCode.too_precise = 1
amount_of_code BdkErrorCode.missing_digits = 2
amount_of_code BdkErrorCode.input_too_large = 3
amount_of_code BdkErrorCode.invalid_character = 4
amount_of_code BdkErrorCode.unexpected = 5
amount_of_code _ = 6

abbrev pub header_of_code : BdkErrorCode → ℕ
header_of_code BdkErrorCode.unexpected_connected_to_hash = 0
header_of_code BdkErrorCode.cannot_connect = 1
header_of_code _ = 2

module _ {T : BdkTypes} (H : Host T) where
  create_tx_recovered :
      (e : CreateTxError T)
      → create_tx_of_code (from_create_tx_error H e).code ≡ create_tx_variant e
  unfolding from_create_tx_error
  create_tx_recovered (CreateTxError.descriptor _) = refl
  create_tx_recovered _ = refl

  fee_bump_recovered :
      (e : BuildFeeBumpError T)
      → fee_bump_of_code (from_build_fee_bump_error H e).code ≡ fee_bump_variant e
  unfolding from_build_fee_bump_error
  fee_bump_recovered (BuildFeeBumpError.unknown_utxo _) = refl
  fee_bump_recovered _ = refl

  address_recovered :
      (e : ParseError T) → address_of_code (from_parse_error H e).code ≡ address_variant e
  unfolding from_parse_error
  address_recovered (ParseError.base58 _) = refl
  address_recovered _ = refl

  amount_recovered :
      (e : ParseAmountError T)
      → amount_of_code (from_parse_amount_error H e).code ≡ amount_variant e
  unfolding from_parse_amount_error
  amount_recovered (ParseAmountError.out_of_range _) = refl
  amount_recovered _ = refl

  header_recovered :
      (e : ApplyHeaderError T)
      → header_of_code (from_apply_header_error H e).code ≡ header_variant e
  unfolding from_apply_header_error
  header_recovered ApplyHeaderError.inconsistent_blocks = refl
  header_recovered _ = refl

  -- The code of an error alone determines its variant, within each kind of error: of making a
  -- transaction, bumping a fee, reading an address or an amount, and applying a block.
  pub codes_determine_variant :
      ((e : CreateTxError T)
        → create_tx_of_code (from_create_tx_error H e).code ≡ create_tx_variant e)
      × ((e : BuildFeeBumpError T)
          → fee_bump_of_code (from_build_fee_bump_error H e).code ≡ fee_bump_variant e)
      × ((e : ParseError T) → address_of_code (from_parse_error H e).code ≡ address_variant e)
      × ((e : ParseAmountError T)
          → amount_of_code (from_parse_amount_error H e).code ≡ amount_variant e)
      × ((e : ApplyHeaderError T)
          → header_of_code (from_apply_header_error H e).code ≡ header_variant e)
  codes_determine_variant = (
    create_tx_recovered, fee_bump_recovered, address_recovered, amount_recovered, header_recovered,
  )
