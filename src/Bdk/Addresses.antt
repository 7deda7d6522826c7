-- ===== src/Bdk/Addresses.antt =====
-- `bitcoin::Address` and bdk_wallet's `AddressInfo`.
use bdk_wasm.Base.{ℕ, String, Option, Result}
use bdk_wasm.Bdk.Kinds.{BdkNetwork, BdkAddressType, BdkKeychainKind}
use bdk_wasm.Bdk.Opaque.{BdkTypes}
use bdk_wasm.Bdk.Errors.{ParseError}

-- An unchecked address is one whose network is not decided. A failure to make an address of a
-- script is given by its text.
pub record AddressLib (T : BdkTypes) : Type 1 where
  pub Unchecked : Type 0
  pub Address : Type 0
  pub from_str : String → Result (ParseError T) Unchecked
  pub require_network : Unchecked → BdkNetwork → Result (ParseError T) Address
  pub from_script : T.Script → BdkNetwork → Result String Address
  pub to_string : Address → String
  pub script_pubkey : Address → T.Script
  pub address_type : Address → Option BdkAddressType

pub record BdkAddressInfo {T : BdkTypes} (L : AddressLib T) : Type 0 where
  pub index : ℕ
  pub address : L.Address
  pub keychain : BdkKeychainKind
