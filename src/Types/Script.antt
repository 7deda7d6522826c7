-- ===== src/Types/Script.antt =====
-- src/types/script.rs: scripts.
use bdk_wasm.Base.{ℕ, String, Bool, List}
use bdk_wasm.Base.Results.{JsResult, js_error, map_ok}
use bdk_wasm.Bdk.Opaque.{BdkTypes}
use bdk_wasm.Bdk.Bitcoin.{ScriptLib}
use bdk_wasm.Types.Wrapper.{wrap, deref, into_inner}
use bdk_wasm.Types.Amount.{Amount, ScriptBuf}
use bdk_wasm.Types.Fee.{FeeRate}

module _ {T : BdkTypes} (L : ScriptLib T) where
  -- `ScriptBuf::from_hex`
  unfoldable pub script_from_hex : String → JsResult (ScriptBuf T)
  script_from_hex text = map_ok wrap (js_error (L.from_hex text))

  -- `ScriptBuf::from_bytes`
  unfoldable pub script_from_bytes : List ℕ → ScriptBuf T
  script_from_bytes bytes = wrap (L.from_bytes bytes)

  -- `ScriptBuf::to_string`
  unfoldable pub script_to_string : ScriptBuf T → String
  script_to_string s = L.to_string (deref s)

  -- `ScriptBuf::as_bytes`
  unfoldable pub script_as_bytes : ScriptBuf T → List ℕ
  script_as_bytes s = L.as_bytes (deref s)

  -- `ScriptBuf::to_asm_string`
  unfoldable pub script_to_asm_string : ScriptBuf T → String
  script_to_asm_string s = L.to_asm_string (deref s)

  -- `ScriptBuf::to_hex_string`
  unfoldable pub script_to_hex_string : ScriptBuf T → String
  script_to_hex_string s = L.to_hex_string (deref s)

  -- `ScriptBuf::is_op_return`
  unfoldable pub script_is_op_return : ScriptBuf T → Bool
  script_is_op_return s = L.is_op_return (deref s)

  -- `ScriptBuf::minimal_non_dust`
  unfoldable pub script_minimal_non_dust : ScriptBuf T → Amount T
  script_minimal_non_dust s = wrap (L.minimal_non_dust (deref s))

  -- `ScriptBuf::minimal_non_dust_custom`
  unfoldable pub script_minimal_non_dust_custom : ScriptBuf T → FeeRate T → Amount T
  script_minimal_non_dust_custom s rate =
      wrap (L.minimal_non_dust_custom (deref s) (into_inner rate))
