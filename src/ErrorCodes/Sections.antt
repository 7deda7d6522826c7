-- ===== src/ErrorCodes/Sections.antt =====
-- Each conversion stays within its own section of `BdkErrorCode`.
use bdk_wasm.Base.{◌≡◌, ◌⊎◌, arith}
use bdk_wasm.Bdk.Opaque.{BdkTypes}
use bdk_wasm.Bdk.Errors.{ParseAmountError, ParseError, BuildFeeBumpError, CreateTxError}
use bdk_wasm.Bdk.Errors.{ApplyHeaderError}
use bdk_wasm.Types.Error.{BdkErrorCode, Host}
use bdk_wasm.Types.Error.Codes.{discriminant, IsTransactionCode, IsFeeBumpCode}
use bdk_wasm.Types.Error.Codes.{IsAddressCode, IsAmountCode, IsBlockCode}
use bdk_wasm.Types.Amount.{from_parse_amount_error}
use bdk_wasm.Types.Address.{from_parse_error}
use bdk_wasm.TxBuilder.Errors.{from_build_fee_bump_error, from_create_tx_error}
use bdk_wasm.Wallet.Errors.{from_apply_header_error}

module _ {T : BdkTypes} (H : Host T) where
  pub create_tx-IsTransactionCode :
      (e : CreateTxError T) → IsTransactionCode (from_create_tx_error H e).code
  unfolding from_create_tx_error discriminant
  create_tx-IsTransactionCode e = ground arith

  pub fee_bump-IsFeeBumpCode :
      (e : BuildFeeBumpError T)
      → ((from_build_fee_bump_error H e).code ≡ BdkErrorCode.unknown_utxo)
        ⊎ IsFeeBumpCode (from_build_fee_bump_error H e).code
  unfolding from_build_fee_bump_error discriminant
  fee_bump-IsFeeBumpCode e = ground arith

  -- The code tells from which kind of call an error comes: making a transaction, bumping a fee
  -- (but for an unknown output, which has the code that making a transaction has too), reading an
  -- address, reading an amount and applying a block each have codes of their own, and only a
  -- variant that the conversions of the address and amount errors do not know is `Unexpected`.
  pub codes_by_section :
      ((e : CreateTxError T) → IsTransactionCode (from_create_tx_error H e).code)
      × ((e : BuildFeeBumpError T)
          → ((from_build_fee_bump_error H e).code ≡ BdkErrorCode.unknown_utxo)
            ⊎ IsFeeBumpCode (from_build_fee_bump_error H e).code)
      × ((e : ParseError T)
          → IsAddressCode (from_parse_error H e).code
            ⊎ ((from_parse_error H e).code ≡ BdkErrorCode.unexpected)
              × ((d : T.Detail) × (e ≡ ParseError.other d)))
      × ((e : ParseAmountError T)
          → IsAmountCode (from_parse_amount_error H e).code
            ⊎ ((from_parse_amount_error H e).code ≡ BdkErrorCode.unexpected)
              × ((d : T.Detail) × (e ≡ ParseAmountError.other d)))
      × ((e : ApplyHeaderError T) → IsBlockCode (from_apply_header_error H e).code)
  unfolding from_parse_error from_parse_amount_error from_apply_header_error discriminant
  codes_by_section = (
    create_tx-IsTransactionCode,
    fee_bump-IsFeeBumpCode,
    λ e. ground arith,
    λ e. ground arith,
    λ e. ground arith,
  )
