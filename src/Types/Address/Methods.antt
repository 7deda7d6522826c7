-- ===== src/Types/Address/Methods.antt =====
-- The methods of `Address` and `AddressInfo`, and `Recipient::from_address` of src/types/psbt.rs.
use bdk_wasm.Base.{ℕ, String, Option, none, some, Result, ok, Outcome, returned, panicked}
use bdk_wasm.Base.Results.{◌>>=◌, JsResult, js_error, map_ok, map_err}
use bdk_wasm.Bdk.Opaque.{BdkTypes}
use bdk_wasm.Bdk.Addresses.{AddressLib, BdkAddressInfo}
use bdk_wasm.Types.Wrapper.{Wrapper, wrap, deref, into_inner}
use bdk_wasm.Types.Network.{Network, network_into_bdk}
use bdk_wasm.Types.Keychain.{KeychainKind, keychain_from_bdk}
use bdk_wasm.Types.Error.{BdkError, Host}
use bdk_wasm.Types.Amount.{Amount, ScriptBuf}
use bdk_wasm.Types.Psbt.{Recipient}
use bdk_wasm.Types.Address.{AddressType, address_type_from_bdk, from_parse_error}

module _ {T : BdkTypes} (L : AddressLib T) where
  abbrev pub Address : Type 0
  Address = Wrapper L.Address

  abbrev pub AddressInfo : Type 0
  AddressInfo = Wrapper (BdkAddressInfo L)

module _ {T : BdkTypes} (H : Host T) (L : AddressLib T) where
  -- `Address::from_string`
  unfoldable pub address_from_string : String → Network → Result (BdkError T) (Address L)
  address_from_string text network = do
    unchecked ← map_err (from_parse_error H) (L.from_str text)
    address ← map_err (from_parse_error H) (L.require_network unchecked (network_into_bdk network))
    ok (wrap address)

module _ {T : BdkTypes} (L : AddressLib T) where
  -- `Address::from_script`
  unfoldable pub address_from_script : ScriptBuf T → Network → JsResult (Address L)
  address_from_script script network =
      map_ok wrap (js_error (L.from_script (deref script) (network_into_bdk network)))

  -- `Address::to_string`
  unfoldable pub address_to_string : Address L → String
  address_to_string a = L.to_string (deref a)

  -- `Address::script_pubkey`
  unfoldable pub address_script_pubkey : Address L → ScriptBuf T
  address_script_pubkey a = wrap (L.script_pubkey (deref a))

  -- `AddressInfo::index`
  unfoldable pub info_index : AddressInfo L → ℕ
  info_index i = (deref i).index

  -- `AddressInfo::address`
  unfoldable pub info_address : AddressInfo L → Address L
  info_address i = wrap (deref i).address

  -- `AddressInfo::keychain`
  unfoldable pub info_keychain : AddressInfo L → KeychainKind
  info_keychain i = keychain_from_bdk (deref i).keychain

  -- `AddressInfo::address_type`
  unfoldable pub info_address_type : AddressInfo L → Outcome (Option AddressType)
  info_address_type i = elim (L.address_type (deref i).address) [
    | none ↦ returned none
    | some t ↦ elim (address_type_from_bdk t) [
      | returned a ↦ returned (some a)
      | panicked message ↦ panicked message
    ]
  ]

  -- `Recipient::from_address`
  unfoldable pub recipient_from_address : Address L → Amount T → Recipient T
  unfolding address_script_pubkey
  recipient_from_address address amount = record {
    script_pubkey = into_inner (address_script_pubkey address);
    amount = into_inner amount;
  }
