-- ===== src/Types/Psbt/Methods.antt =====
-- The methods of `Psbt`.
use bdk_wasm.Base.{ℕ, String, Option, map_option, ok, err, Outcome, returned, panicked}
use bdk_wasm.Base.Results.{JsResult, js_error, map_ok}
use bdk_wasm.Bdk.Opaque.{BdkTypes}
use bdk_wasm.Bdk.Bitcoin.{PsbtLib}
use bdk_wasm.Types.Wrapper.{wrap, deref, into_inner}
use bdk_wasm.Types.Amount.{Amount}
use bdk_wasm.Types.Fee.{FeeRate}
use bdk_wasm.Types.Event.{Transaction}
use bdk_wasm.Types.Psbt.{Psbt}

module _ {T : BdkTypes} (L : PsbtLib T) where
  -- `Psbt::extract_tx_fee_rate_limit`
  unfoldable pub psbt_extract_tx_fee_rate_limit : Psbt T → JsResult (Transaction T)
  psbt_extract_tx_fee_rate_limit p = map_ok wrap (js_error (L.extract_tx_fee_rate_limit (deref p)))

  -- `Psbt::extract_tx`
  unfoldable pub psbt_extract_tx : Psbt T → JsResult (Transaction T)
  psbt_extract_tx p = map_ok wrap (js_error (L.extract_tx (deref p)))

  -- `Psbt::extract_tx_with_fee_rate_limit`
  unfoldable pub psbt_extract_tx_with_fee_rate_limit : Psbt T → FeeRate T → JsResult (Transaction T)
  psbt_extract_tx_with_fee_rate_limit p max_fee_rate =
      map_ok wrap (js_error (L.extract_tx_with_fee_rate_limit (deref p) (into_inner max_fee_rate)))

  -- `Psbt::fee`
  unfoldable pub psbt_fee : Psbt T → JsResult (Amount T)
  psbt_fee p = map_ok wrap (js_error (L.fee (deref p)))

  -- `Psbt::fee_amount`
  unfoldable pub psbt_fee_amount : Psbt T → Option (Amount T)
  psbt_fee_amount p = map_option wrap (L.fee_amount (deref p))

  -- `Psbt::fee_rate`
  unfoldable pub psbt_fee_rate : Psbt T → Option (FeeRate T)
  psbt_fee_rate p = map_option wrap (L.fee_rate (deref p))

  -- `Psbt::version`
  unfoldable pub psbt_version : Psbt T → ℕ
  psbt_version p = L.version (deref p)

  -- `Psbt::unsigned_tx`
  unfoldable pub psbt_unsigned_tx : Psbt T → Transaction T
  psbt_unsigned_tx p = wrap (L.unsigned_tx (deref p))

  -- `Psbt::to_string`
  unfoldable pub psbt_to_string : Psbt T → String
  psbt_to_string p = L.to_string (deref p)

  -- `Psbt::combine`, with the PSBT that it leaves in `self`
  unfoldable pub psbt_combine : Psbt T → Psbt T → JsResult (Unit {0}) × Psbt T
  psbt_combine p other =
      let (r, combined) = L.combine (deref p) (into_inner other) in (js_error r, wrap combined)

  -- `Psbt::from_string`
  unfoldable pub psbt_from_string : String → JsResult (Psbt T)
  psbt_from_string text = map_ok wrap (js_error (L.from_str text))

  -- `Psbt::to_json`
  unfoldable pub psbt_to_json : Psbt T → Outcome String
  psbt_to_json p = elim (L.to_json (deref p)) [
    | ok text ↦ returned text
    | err _ ↦ panicked "Serialization should not fail"
  ]
