-- ===== src/Types/Address.antt =====
-- src/types/address.rs: address types, and the conversion of address errors; the methods are in
-- Methods.
pub mod Methods
pub mod Parsing
use bdk_wasm.Base.{String, Outcome, returned, panicked}
use bdk_wasm.Bdk.Kinds.{BdkAddressType}
use bdk_wasm.Bdk.Opaque.{BdkTypes}
use bdk_wasm.Bdk.Errors.{ParseError}
use bdk_wasm.Types.Error.{BdkErrorCode, BdkError, Host, Payload, new_error}

-- An address type. `invalid` is as in Types/Network.antt.
pub data AddressType : Type 0 where
  p2pkh p2sh p2wpkh p2wsh p2tr invalid : AddressType

-- `From<BdkAddressType> for AddressType`
unfoldable pub address_type_from_bdk : BdkAddressType → Outcome AddressType
address_type_from_bdk BdkAddressType.p2pkh = returned AddressType.p2pkh
address_type_from_bdk BdkAddressType.p2sh = returned AddressType.p2sh
address_type_from_bdk BdkAddressType.p2wpkh = returned AddressType.p2wpkh
address_type_from_bdk BdkAddressType.p2wsh = returned AddressType.p2wsh
address_type_from_bdk BdkAddressType.p2tr = returned AddressType.p2tr
address_type_from_bdk _ = panicked "Unsupported address type"

-- `From<AddressType> for BdkAddressType`
unfoldable pub address_type_into_bdk : AddressType → Outcome BdkAddressType
address_type_into_bdk AddressType.p2pkh = returned BdkAddressType.p2pkh
address_type_into_bdk AddressType.p2sh = returned BdkAddressType.p2sh
address_type_into_bdk AddressType.p2wpkh = returned BdkAddressType.p2wpkh
address_type_into_bdk AddressType.p2wsh = returned BdkAddressType.p2wsh
address_type_into_bdk AddressType.p2tr = returned BdkAddressType.p2tr
address_type_into_bdk _ = panicked "Unsupported address type"

module _ {T : BdkTypes} (H : Host T) where
  -- `From<ParseError> for BdkError`
  unfoldable pub from_parse_error : ParseError T → BdkError T
  from_parse_error e = elim e [
    | ParseError.base58 _ ↦ new_error H BdkErrorCode.base58 text Payload.unit
    | ParseError.bech32 _ ↦ new_error H BdkErrorCode.bech32 text Payload.unit
    | ParseError.witness_version _ ↦ new_error H BdkErrorCode.witness_version text Payload.unit
    | ParseError.witness_program _ ↦ new_error H BdkErrorCode.witness_program text Payload.unit
    | ParseError.unknown_hrp _ ↦ new_error H BdkErrorCode.unknown_hrp text Payload.unit
    | ParseError.legacy_address_too_long _ ↦
        new_error H BdkErrorCode.legacy_address_too_long text Payload.unit
    | ParseError.invalid_base58_payload_length _ ↦
        new_error H BdkErrorCode.invalid_base58_payload_length text Payload.unit
    | ParseError.invalid_legacy_prefix _ ↦
        new_error H BdkErrorCode.invalid_legacy_prefix text Payload.unit
    | ParseError.network_validation _ ↦
        new_error H BdkErrorCode.network_validation text Payload.unit
    | _ ↦ new_error H BdkErrorCode.unexpected text Payload.unit
  ]
    where
      text : String
      text = H.address_text e
