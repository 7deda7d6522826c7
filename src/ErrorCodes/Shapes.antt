-- ===== src/ErrorCodes/Shapes.antt =====
-- What an error carries beside its code.
use bdk_wasm.Base.{◌≡◌, refl, String, unwrap_or}
use bdk_wasm.Bdk.Opaque.{BdkTypes}
use bdk_wasm.Bdk.Errors.{
  ParseAmountError, ParseError, AddUtxoError, BuildFeeBumpError, CreateTxError, CannotConnectError,
  ApplyHeaderError,
}
use bdk_wasm.Types.Error.{
  BdkErrorCode, BdkError, Host, Payload, new_error, error_code, error_message, error_data,
}
use bdk_wasm.Types.Amount.{from_parse_amount_error}
use bdk_wasm.Types.Address.{from_parse_error}
use bdk_wasm.TxBuilder.Errors.{from_add_utxo_error, from_build_fee_bump_error, from_create_tx_error}
use bdk_wasm.Wallet.Errors.{from_cannot_connect_error, from_apply_header_error}

-- The types of the values that errors carry.
pub data Shape : Type 0 where
  unit txid outpoint keychain amount fee_rate limit funds : Shape

abbrev pub shape_of : {T : BdkTypes} → Payload T → Shape
shape_of Payload.unit = Shape.unit
shape_of (Payload.txid _) = Shape.txid
shape_of (Payload.outpoint _) = Shape.outpoint
shape_of (Payload.keychain _) = Shape.keychain
shape_of (Payload.amount _) = Shape.amount
shape_of (Payload.fee_rate _) = Shape.fee_rate
shape_of (Payload.limit _) = Shape.limit
shape_of (Payload.funds _) = Shape.funds

-- The type that a reader may expect after looking at the code.
abbrev pub expected : BdkErrorCode → Shape
expected BdkErrorCode.spending_policy_required = Shape.keychain
expected BdkErrorCode.fee_too_low = Shape.amount
expected BdkErrorCode.fee_rate_too_low = Shape.fee_rate
expected BdkErrorCode.output_below_dust_limit = Shape.limit
expected BdkErrorCode.insufficient_funds = Shape.funds
expected BdkErrorCode.missing_non_witness_utxo = Shape.outpoint
expected BdkErrorCode.transaction_not_found = Shape.txid
expected BdkErrorCode.transaction_confirmed = Shape.txid
expected BdkErrorCode.irreplaceable_transaction = Shape.txid
expected BdkErrorCode.invalid_output_index = Shape.outpoint
expected _ = Shape.unit

module _ {T : BdkTypes} (H : Host T) where
  -- The error has the text as its message, and a value of the type that its code lets expect, or
  -- `undefined` if that value cannot be turned into one of JavaScript.
  abbrev pub Describes : String → BdkError T → Type 0
  Describes text x =
      (error_message x ≡ text)
      × ((p : Payload T) × (shape_of p ≡ expected (error_code x))
          × (error_data x ≡ unwrap_or (H.to_value p) H.undefined))

  new_error-Describes :
      (code : BdkErrorCode) (text : String) (p : Payload T)
      → shape_of p ≡ expected code
      → Describes text (new_error H code text p)
  unfolding error_message error_code error_data
  new_error-Describes code text p e = (refl, (p, e, refl))

  fee_bump-Describes :
      (e : BuildFeeBumpError T) → Describes (H.fee_bump_text e) (from_build_fee_bump_error H e)
  unfolding from_build_fee_bump_error
  fee_bump-Describes (BuildFeeBumpError.unknown_utxo _) = new_error-Describes _ _ _ refl
  fee_bump-Describes (BuildFeeBumpError.transaction_not_found _) = new_error-Describes _ _ _ refl
  fee_bump-Describes (BuildFeeBumpError.transaction_confirmed _) = new_error-Describes _ _ _ refl
  fee_bump-Describes (BuildFeeBumpError.irreplaceable_transaction _) =
      new_error-Describes _ _ _ refl
  fee_bump-Describes BuildFeeBumpError.fee_rate_unavailable = new_error-Describes _ _ _ refl
  fee_bump-Describes (BuildFeeBumpError.invalid_output_index _) = new_error-Describes _ _ _ refl

  create_tx-Describes :
      (e : CreateTxError T) → Describes (H.create_tx_text e) (from_create_tx_error H e)
  unfolding from_create_tx_error
  create_tx-Describes (CreateTxError.descriptor _) = new_error-Describes _ _ _ refl
  create_tx-Describes (CreateTxError.policy _) = new_error-Describes _ _ _ refl
  create_tx-Describes (CreateTxError.spending_policy_required _) = new_error-Describes _ _ _ refl
  create_tx-Describes CreateTxError.version0 = new_error-Describes _ _ _ refl
  create_tx-Describes CreateTxError.version1_csv = new_error-Describes _ _ _ refl
  create_tx-Describes (CreateTxError.lock_time _) = new_error-Describes _ _ _ refl
  create_tx-Describes (CreateTxError.rbf_sequence_csv _) = new_error-Describes _ _ _ refl
  create_tx-Describes (CreateTxError.fee_too_low _) = new_error-Describes _ _ _ refl
  create_tx-Describes (CreateTxError.fee_rate_too_low _) = new_error-Describes _ _ _ refl
  create_tx-Describes CreateTxError.no_utxos_selected = new_error-Describes _ _ _ refl
  create_tx-Describes (CreateTxError.output_below_dust_limit _) = new_error-Describes _ _ _ refl
  create_tx-Describes (CreateTxError.coin_selection _) = new_error-Describes _ _ _ refl
  create_tx-Describes CreateTxError.no_recipients = new_error-Describes _ _ _ refl
  create_tx-Describes (CreateTxError.psbt _) = new_error-Describes _ _ _ refl
  create_tx-Describes (CreateTxError.missing_key_origin _) = new_error-Describes _ _ _ refl
  create_tx-Describes CreateTxError.unknown_utxo = new_error-Describes _ _ _ refl
  create_tx-Describes (CreateTxError.missing_non_witness_utxo _) = new_error-Describes _ _ _ refl
  create_tx-Describes (CreateTxError.miniscript_psbt _) = new_error-Describes _ _ _ refl

  parse-Describes : (e : ParseError T) → Describes (H.address_text e) (from_parse_error H e)
  unfolding from_parse_error
  parse-Describes (ParseError.base58 _) = new_error-Describes _ _ _ refl
  parse-Describes (ParseError.bech32 _) = new_error-Describes _ _ _ refl
  parse-Describes (ParseError.witness_version _) = new_error-Describes _ _ _ refl
  parse-Describes (ParseError.witness_program _) = new_error-Describes _ _ _ refl
  parse-Describes (ParseError.unknown_hrp _) = new_error-Describes _ _ _ refl
  parse-Describes (ParseError.legacy_address_too_long _) = new_error-Describes _ _ _ refl
  parse-Describes (ParseError.invalid_base58_payload_length _) = new_error-Describes _ _ _ refl
  parse-Describes (ParseError.invalid_legacy_prefix _) = new_error-Describes _ _ _ refl
  parse-Describes (ParseError.network_validation _) = new_error-Describes _ _ _ refl
  parse-Describes (ParseError.other _) = new_error-Describes _ _ _ refl

  parse_amount-Describes :
      (e : ParseAmountError T) → Describes (H.amount_text e) (from_parse_amount_error H e)
  unfolding from_parse_amount_error
  parse_amount-Describes (ParseAmountError.out_of_range _) = new_error-Describes _ _ _ refl
  parse_amount-Describes (ParseAmountError.too_precise _) = new_error-Describes _ _ _ refl
  parse_amount-Describes (ParseAmountError.missing_digits _) = new_error-Describes _ _ _ refl
  parse_amount-Describes (ParseAmountError.input_too_large _) = new_error-Describes _ _ _ refl
  parse_amount-Describes (ParseAmountError.invalid_character _) = new_error-Describes _ _ _ refl
  parse_amount-Describes (ParseAmountError.other _) = new_error-Describes _ _ _ refl

  -- The text of an error of a header: the one inside it, if a block cannot be connected.
  abbrev pub header_message : ApplyHeaderError T → String
  header_message ApplyHeaderError.inconsistent_blocks =
      H.header_text ApplyHeaderError.inconsistent_blocks
  header_message (ApplyHeaderError.cannot_connect inner) = H.connect_text inner

  header-Describes :
      (e : ApplyHeaderError T) → Describes (header_message e) (from_apply_header_error H e)
  unfolding from_apply_header_error
  header-Describes ApplyHeaderError.inconsistent_blocks = new_error-Describes _ _ _ refl
  header-Describes (ApplyHeaderError.cannot_connect _) = new_error-Describes _ _ _ refl

  -- In all seven conversions the message is the library's own text for the error, for an error of a
  -- header the text of the connection error inside it, and the type of the attached value depends on
  -- the code alone: it is the one that `expected` names, wherever the error comes from. Where the
  -- value cannot be converted, the data is `undefined`.
  pub errors_described :
      ((e : CreateTxError T) → Describes (H.create_tx_text e) (from_create_tx_error H e))
      × ((e : BuildFeeBumpError T) → Describes (H.fee_bump_text e) (from_build_fee_bump_error H e))
      × ((e : AddUtxoError T) → Describes (H.add_utxo_text e) (from_add_utxo_error H e))
      × ((e : ParseError T) → Describes (H.address_text e) (from_parse_error H e))
      × ((e : ParseAmountError T) → Describes (H.amount_text e) (from_parse_amount_error H e))
      × ((e : CannotConnectError T) → Describes (H.connect_text e) (from_cannot_connect_error H e))
      × ((e : ApplyHeaderError T) → Describes (header_message e) (from_apply_header_error H e))
  unfolding from_add_utxo_error from_cannot_connect_error
  errors_described = (
    create_tx-Describes,
    fee_bump-Describes,
    λ e. new_error-Describes _ _ _ refl,
    parse-Describes,
    parse_amount-Describes,
    λ e. new_error-Describes _ _ _ refl,
    header-Describes,
  )
