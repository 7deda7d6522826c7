-- ===== src/Types/Amount.antt =====
-- src/types/amount.rs: amounts, denominations and the conversion of amount errors.
-- `bitcoin::Amount` and the floating-point numbers are parameters.
use bdk_wasm.Base.{ℕ, String, Bool, Result, Outcome, returned, panicked}
use bdk_wasm.Base.Results.{map_ok, map_err}
use bdk_wasm.Bdk.Kinds.{BdkDenomination}
use bdk_wasm.Bdk.Opaque.{BdkTypes}
use bdk_wasm.Bdk.Errors.{ParseAmountError}
use bdk_wasm.Types.Wrapper.{Wrapper, wrap, deref}
use bdk_wasm.Types.Error.{BdkErrorCode, BdkError, Host, Payload, new_error}

abbrev pub Amount : BdkTypes → Type 0
Amount T = Wrapper T.Amount

abbrev pub ScriptBuf : BdkTypes → Type 0
ScriptBuf T = Wrapper T.Script

-- A denomination. `invalid` is as in Types/Network.antt.
pub data Denomination : Type 0 where
  bitcoin centi_bitcoin milli_bitcoin micro_bitcoin nano_bitcoin pico_bitcoin : Denomination
  bit satoshi milli_satoshi invalid : Denomination

-- `From<BdkDenomination> for Denomination`
unfoldable pub denomination_from_bdk : BdkDenomination → Outcome Denomination
denomination_from_bdk BdkDenomination.bitcoin = returned Denomination.bitcoin
denomination_from_bdk BdkDenomination.centi_bitcoin = returned Denomination.centi_bitcoin
denomination_from_bdk BdkDenomination.milli_bitcoin = returned Denomination.milli_bitcoin
denomination_from_bdk BdkDenomination.micro_bitcoin = returned Denomination.micro_bitcoin
denomination_from_bdk BdkDenomination.nano_bitcoin = returned Denomination.nano_bitcoin
denomination_from_bdk BdkDenomination.pico_bitcoin = returned Denomination.pico_bitcoin
denomination_from_bdk BdkDenomination.bit = returned Denomination.bit
denomination_from_bdk BdkDenomination.satoshi = returned Denomination.satoshi
denomination_from_bdk BdkDenomination.milli_satoshi = returned Denomination.milli_satoshi
denomination_from_bdk _ = panicked "Unsupported denomination"

-- `From<Denomination> for BdkDenomination`
unfoldable pub denomination_into_bdk : Denomination → Outcome BdkDenomination
denomination_into_bdk Denomination.bitcoin = returned BdkDenomination.bitcoin
denomination_into_bdk Denomination.centi_bitcoin = returned BdkDenomination.centi_bitcoin
denomination_into_bdk Denomination.milli_bitcoin = returned BdkDenomination.milli_bitcoin
denomination_into_bdk Denomination.micro_bitcoin = returned BdkDenomination.micro_bitcoin
denomination_into_bdk Denomination.nano_bitcoin = returned BdkDenomination.nano_bitcoin
denomination_into_bdk Denomination.pico_bitcoin = returned BdkDenomination.pico_bitcoin
denomination_into_bdk Denomination.bit = returned BdkDenomination.bit
denomination_into_bdk Denomination.satoshi = returned BdkDenomination.satoshi
denomination_into_bdk Denomination.milli_satoshi = returned BdkDenomination.milli_satoshi
denomination_into_bdk _ = panicked "Unsupported denomination"

-- The operations of `bitcoin::Amount` that the wrapper calls.
pub record AmountLib (T : BdkTypes) : Type 1 where
  pub Float : Type 0
  pub from_btc : Float → Result (ParseAmountError T) T.Amount
  pub from_sat : ℕ → T.Amount
  pub to_sat : T.Amount → ℕ
  pub to_btc : T.Amount → Float
  pub to_float_in : T.Amount → BdkDenomination → Float
  pub is_dust : T.Amount → T.Script → Bool

module _ {T : BdkTypes} (H : Host T) where
  -- `From<ParseAmountError> for BdkError`
  unfoldable pub from_parse_amount_error : ParseAmountError T → BdkError T
  from_parse_amount_error e = elim e [
    | ParseAmountError.out_of_range _ ↦ new_error H BdkErrorCode.out_of_range text Payload.unit
    | ParseAmountError.too_precise _ ↦ new_error H BdkErrorCode.too_precise text Payload.unit
    | ParseAmountError.missing_digits _ ↦ new_error H BdkErrorCode.missing_digits text Payload.unit
    | ParseAmountError.input_too_large _ ↦
        new_error H BdkErrorCode.input_too_large text Payload.unit
    | ParseAmountError.invalid_character _ ↦
        new_error H BdkErrorCode.invalid_character text Payload.unit
    | _ ↦ new_error H BdkErrorCode.unexpected text Payload.unit
  ]
    where
      text : String
      text = H.amount_text e

  module _ (L : AmountLib T) where
    -- `Amount::from_btc`
    unfoldable pub amount_from_btc : L.Float → Result (BdkError T) (Amount T)
    amount_from_btc btc = map_ok wrap (map_err from_parse_amount_error (L.from_btc btc))

module _ {T : BdkTypes} (L : AmountLib T) where
  -- `Amount::from_sat`
  unfoldable pub amount_from_sat : ℕ → Amount T
  amount_from_sat sat = wrap (L.from_sat sat)

  -- `Amount::to_sat`
  unfoldable pub amount_to_sat : Amount T → ℕ
  amount_to_sat a = L.to_sat (deref a)

  -- `Amount::to_btc`
  unfoldable pub amount_to_btc : Amount T → L.Float
  amount_to_btc a = L.to_btc (deref a)

  -- `Amount::to_float_in`
  unfoldable pub amount_to_float_in : Amount T → Denomination → Outcome L.Float
  unfolding denomination_into_bdk
  amount_to_float_in a denom = elim (denomination_into_bdk denom) [
    | returned d ↦ returned (L.to_float_in (deref a) d)
    | panicked message ↦ panicked message
  ]

  -- `Amount::is_dust`
  unfoldable pub amount_is_dust : Amount T → ScriptBuf T → Bool
  amount_is_dust a script = L.is_dust (deref a) (deref script)
