-- ===== src/Wallet/Errors.antt =====
-- The conversions of the errors that applying a block meets (src/bitcoin/wallet.rs).
use bdk_wasm.Bdk.Opaque.{BdkTypes}
use bdk_wasm.Bdk.Errors.{CannotConnectError, ApplyHeaderError}
use bdk_wasm.Types.Error.{BdkErrorCode, BdkError, Host, Payload, new_error}

module _ {T : BdkTypes} (H : Host T) where
  -- `From<CannotConnectError> for BdkError`
  unfoldable pub from_cannot_connect_error : CannotConnectError T → BdkError T
  from_cannot_connect_error e =
      new_error H BdkErrorCode.cannot_connect (H.connect_text e) Payload.unit

  -- `From<ApplyHeaderError> for BdkError`
  unfoldable pub from_apply_header_error : ApplyHeaderError T → BdkError T
  from_apply_header_error ApplyHeaderError.inconsistent_blocks =
      new_error H BdkErrorCode.unexpected_connected_to_hash
        (H.header_text ApplyHeaderError.inconsistent_blocks) Payload.unit
  from_apply_header_error (ApplyHeaderError.cannot_connect inner) =
      new_error H BdkErrorCode.cannot_connect (H.connect_text inner) Payload.unit
