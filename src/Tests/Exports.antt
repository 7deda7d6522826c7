-- ===== src/Tests/Exports.antt =====
-- The exported descriptor functions over the keys of Descriptors.
use text.Mathlib.Text.{◌==◌}
use bdk_wasm.Base.{true, ◌&&◌, returned, if◌then◌else◌, ℕ, ◌≡◌, refl, List, [], ok, err}
use bdk_wasm.Bdk.Kinds.{BdkKeychainKind}
use bdk_wasm.Bdk.Keys.{Xpriv, Xpub, TextLib}
use bdk_wasm.Types.Network.{Network, network_into_bdk}
use bdk_wasm.Types.Address.{AddressType, address_type_into_bdk}
use bdk_wasm.Descriptor.Templates
use bdk_wasm.Descriptor.Exports.{
  DescriptorPair, seed_to_descriptor, xpriv_to_descriptor, xpub_to_descriptor,
}
use bdk_wasm.Descriptor.Exports.Panics.{panics, parses, exports_panic}
use bdk_wasm.Descriptor.Exports.Pairs.{IsTextOf, xpriv_pair, xpub_pair, seed_pair}
use bdk_wasm.Tests.Descriptors.{keys, master, public_master, key_lib, templates}

abbrev texts : TextLib templates
texts = record {
  xpriv_from_str = λ _. ok master;
  xpub_from_str = λ _. ok public_master;
  fingerprint_from_hex = λ text. if text == "" then err "empty" else ok [];
  xpriv_text = λ _. "xprv";
  xpub_text = λ _. "xpub";
  error_text = λ e. e;
  to_string_with_secret = λ t. elim t.1 [
    | BdkKeychainKind.external ↦ "secret external"
    | BdkKeychainKind.internal ↦ "secret internal"
  ];
  to_string = λ t. elim t.1 [
    | BdkKeychainKind.external ↦ "external"
    | BdkKeychainKind.internal ↦ "internal"
  ];
}

-- A panic, and a fingerprint that does not parse in front of it.
exports_panic_example :
    (panics (seed_to_descriptor key_lib texts [] Network.signet AddressType.invalid) ≡ true)
    × (panics (xpriv_to_descriptor key_lib texts "k" "" Network.signet AddressType.invalid)
        ≡ (parses (texts.xpriv_from_str "k") && parses (texts.fingerprint_from_hex "") && true))
    × (panics (xpub_to_descriptor key_lib texts "k" "" Network.signet AddressType.invalid)
        ≡ (parses (texts.xpub_from_str "k") && parses (texts.fingerprint_from_hex "") && true))
exports_panic_example = exports_panic key_lib texts [] "k" "k" "" Network.signet AddressType.invalid

abbrev secret_pair : DescriptorPair
secret_pair = record { external = "secret external"; internal = "secret internal" }

xpriv_described :
    xpriv_to_descriptor key_lib texts "k" "f" Network.signet AddressType.p2tr
    ≡ returned (ok secret_pair)
unfolding xpriv_to_descriptor address_type_into_bdk Templates.xpriv_to_descriptor
    Templates.build_descriptor
xpriv_described = refl

xpriv_pair_example :
    (xprv : Xpriv keys) × (fingerprint : List ℕ) × (texts.xpriv_from_str "k" ≡ ok xprv)
    × (texts.fingerprint_from_hex "f" ≡ ok fingerprint)
    × IsTextOf key_lib texts texts.to_string_with_secret
        (λ bip. templates.xpriv_template bip xprv fingerprint)
        (network_into_bdk Network.signet)
        AddressType.p2tr
        secret_pair
xpriv_pair_example =
    xpriv_pair key_lib texts "k" "f" Network.signet AddressType.p2tr secret_pair xpriv_described

abbrev public_pair : DescriptorPair
public_pair = record { external = "external"; internal = "internal" }

xpub_described :
    xpub_to_descriptor key_lib texts "k" "f" Network.signet AddressType.p2tr
    ≡ returned (ok public_pair)
unfolding xpub_to_descriptor address_type_into_bdk Templates.xpub_to_descriptor
    Templates.build_descriptor
xpub_described = refl

xpub_pair_example :
    (xpub : Xpub keys) × (fingerprint : List ℕ) × (texts.xpub_from_str "k" ≡ ok xpub)
    × (texts.fingerprint_from_hex "f" ≡ ok fingerprint)
    × IsTextOf key_lib texts texts.to_string
        (λ bip. templates.xpub_template bip xpub fingerprint)
        (network_into_bdk Network.signet)
        AddressType.p2tr
        public_pair
xpub_pair_example =
    xpub_pair key_lib texts "k" "f" Network.signet AddressType.p2tr public_pair xpub_described

seed_described :
    seed_to_descriptor key_lib texts [] Network.signet AddressType.p2tr ≡ returned (ok secret_pair)
unfolding seed_to_descriptor address_type_into_bdk Templates.seed_to_descriptor
    Templates.private_descriptor Templates.build_xpriv_descriptor
seed_described = refl

seed_pair_example :
    (xprv : Xpriv keys) × (key_lib.new_master (network_into_bdk Network.signet) [] ≡ ok xprv)
    × IsTextOf key_lib texts texts.to_string_with_secret
        (λ bip. templates.private_template bip xprv)
        (network_into_bdk Network.signet)
        AddressType.p2tr
        secret_pair
seed_pair_example =
    seed_pair key_lib texts [] Network.signet AddressType.p2tr secret_pair seed_described
