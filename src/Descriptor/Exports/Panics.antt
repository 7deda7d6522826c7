-- ===== src/Descriptor/Exports/Panics.antt =====
-- When the exported descriptor functions panic.
use bdk_wasm.Base.{ℕ, ◌≡◌, refl, String, Bool, true, false, ◌&&◌, List, Result, ok, err}
use bdk_wasm.Base.{Outcome, returned, panicked, arith}
use bdk_wasm.Base.Results.{JsResult}
use bdk_wasm.Bdk.Kinds.{BdkAddressType}
use bdk_wasm.Bdk.Keys.{KeyTypes, KeyLib, TemplateLib, TextLib}
use bdk_wasm.Types.Network.{Network}
use bdk_wasm.Types.Address.{AddressType, address_type_into_bdk}
use bdk_wasm.Descriptor.Exports.{DescriptorPair, with_type, parse_key}
use bdk_wasm.Descriptor.Exports.{seed_to_descriptor, xpriv_to_descriptor, xpub_to_descriptor}

abbrev pub panics {ℓ} : {A : Type ℓ} → Outcome A → Bool
panics (returned _) = false
panics (panicked _) = true

abbrev pub parses {ℓ} : {A : Type ℓ} → Result String A → Bool
parses (ok _) = true
parses (err _) = false

abbrev pub is_invalid : AddressType → Bool
is_invalid AddressType.invalid = true
is_invalid _ = false

panics-with_type :
    (t : AddressType) (call : BdkAddressType → JsResult DescriptorPair)
    → panics (with_type t call) ≡ is_invalid t
unfolding address_type_into_bdk
panics-with_type t call = ground arith

panics-parse_key :
    {Key : Type 0} (k : Result String Key) (f : Result String (List ℕ)) (t : AddressType)
    (call : Key → List ℕ → BdkAddressType → JsResult DescriptorPair)
    → panics (parse_key k f (λ key fingerprint. with_type t (call key fingerprint)))
      ≡ (parses k && parses f && is_invalid t)
panics-parse_key (err _) _ t call = refl
panics-parse_key (ok _) (err _) t call = refl
panics-parse_key (ok key) (ok fingerprint) t call = panics-with_type t (call key fingerprint)

module _ {K : KeyTypes} (P : KeyLib K) {M : TemplateLib K} (X : TextLib M) where
  -- The exported functions panic on the invalid address type and on nothing else; from a key they
  -- do so only when the key and the fingerprint parse, since a text that does not is reported first.
  pub exports_panic :
      (seed : List ℕ) (xprv xpub fingerprint : String) (network : Network) (t : AddressType)
      → (panics (seed_to_descriptor P X seed network t) ≡ is_invalid t)
        × (panics (xpriv_to_descriptor P X xprv fingerprint network t) ≡ (
            parses (X.xpriv_from_str xprv)
            && parses (X.fingerprint_from_hex fingerprint)
            && is_invalid t))
        × (panics (xpub_to_descriptor P X xpub fingerprint network t) ≡ (
            parses (X.xpub_from_str xpub)
            && parses (X.fingerprint_from_hex fingerprint)
            && is_invalid t))
  unfolding seed_to_descriptor xpriv_to_descriptor xpub_to_descriptor
  exports_panic seed xprv xpub fingerprint network t =
      (panics-with_type t _, panics-parse_key _ _ t _, panics-parse_key _ _ t _)
