-- ===== src/Types/Error/Printing.antt =====
-- The code that an error passes through and that is not the crate's: `to_value` of
-- serde_wasm_bindgen, and the `Display` text of each library's error.
use bdk_wasm.Base.{String, Option}
use bdk_wasm.Bdk.Opaque.{BdkTypes}
use bdk_wasm.Bdk.Errors.{ParseAmountError, ParseError, AddUtxoError, BuildFeeBumpError}
use bdk_wasm.Bdk.Errors.{CreateTxError, CannotConnectError, ApplyHeaderError}
use bdk_wasm.Types.Error.Values.{Payload}

pub record Host (T : BdkTypes) : Type 0 where
  pub undefined : T.JsValue
  pub to_value : Payload T → Option T.JsValue
  pub amount_text : ParseAmountError T → String
  pub address_text : ParseError T → String
  pub add_utxo_text : AddUtxoError T → String
  pub fee_bump_text : BuildFeeBumpError T → String
  pub create_tx_text : CreateTxError T → String
  pub connect_text : CannotConnectError T → String
  pub header_text : ApplyHeaderError T → String
