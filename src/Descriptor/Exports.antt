-- ===== src/Descriptor/Exports.antt =====
-- src/utils/descriptor.rs: the functions on descriptors that JavaScript calls. The network and the
-- address type are converted when the call's arguments are evaluated, after the texts are parsed.
pub mod Panics
pub mod Pairs
use bdk_wasm.Base.{ℕ, String, List, Result, ok, err, Outcome, returned, panicked}
use bdk_wasm.Base.Results.{JsError, JsResult, js_error, map_ok, map_err}
use bdk_wasm.Bdk.Kinds.{BdkAddressType}
use bdk_wasm.Bdk.Keys.{KeyTypes, ExtendedKey, KeyLib, TemplateLib, TextLib}
use bdk_wasm.Types.Network.{Network, network_into_bdk}
use bdk_wasm.Types.Address.{AddressType, address_type_into_bdk}
use bdk_wasm.Descriptor.Templates
use bdk_wasm.Descriptor.Slip10.{Slip10Node}
use bdk_wasm.Descriptor.Slip10

pub record DescriptorPair : Type 0 where
  pub external : String
  pub internal : String

-- `DescriptorPair::new`
abbrev pub pair_new : String → String → DescriptorPair
pair_new external internal = record { external = external; internal = internal }

-- `DescriptorPair::internal`
unfoldable pub pair_internal : DescriptorPair → String
pair_internal p = p.internal

-- `DescriptorPair::external`
unfoldable pub pair_external : DescriptorPair → String
pair_external p = p.external

-- A call that converts the address type for one of its arguments.
abbrev pub with_type :
    AddressType → (BdkAddressType → JsResult DescriptorPair) → Outcome (JsResult DescriptorPair)
with_type address_type call = elim (address_type_into_bdk address_type) [
  | returned t ↦ returned (call t)
  | panicked message ↦ panicked message
]

-- The two lines that parse a key and then a fingerprint, each with `?`.
abbrev pub parse_key :
    {Key : Type 0}
    → Result String Key
    → Result String (List ℕ)
    → (Key → List ℕ → Outcome (JsResult DescriptorPair))
    → Outcome (JsResult DescriptorPair)
parse_key (err message) _ call = returned (err (record { text = message }))
parse_key (ok _) (err message) call = returned (err (record { text = message }))
parse_key (ok key) (ok fingerprint) call = call key fingerprint

module _ {K : KeyTypes} (P : KeyLib K) {M : TemplateLib K} (X : TextLib M) where
  -- `.map_err(|e| JsError::new(&e.to_string()))`
  abbrev pub key_error {ℓ} : {A : Type ℓ} → Result K.Error A → JsResult A
  key_error r = map_err (λ e. record { text = X.error_text e }) r

  -- The end of the three descriptor functions: the pair of the texts, or the error.
  abbrev pub printed : (M.Out → String) → Result K.Error (M.Out × M.Out) → JsResult DescriptorPair
  printed text r = map_ok (λ outs. pair_new (text outs.0) (text outs.1)) (key_error r)

  -- `seed_to_descriptor`
  unfoldable pub seed_to_descriptor :
      List ℕ → Network → AddressType → Outcome (JsResult DescriptorPair)
  seed_to_descriptor seed network address_type = with_type address_type (λ t.
      printed X.to_string_with_secret
        (Templates.seed_to_descriptor P M seed (network_into_bdk network) t))

  -- `xpriv_to_descriptor`
  unfoldable pub xpriv_to_descriptor :
      String → String → Network → AddressType → Outcome (JsResult DescriptorPair)
  xpriv_to_descriptor extended_privkey fingerprint network address_type =
      parse_key (X.xpriv_from_str extended_privkey) (X.fingerprint_from_hex fingerprint) (λ xprv f.
        with_type address_type (λ t.
          printed X.to_string_with_secret
            (Templates.xpriv_to_descriptor P M xprv f (network_into_bdk network) t)))

  -- `xpub_to_descriptor`
  unfoldable pub xpub_to_descriptor :
      String → String → Network → AddressType → Outcome (JsResult DescriptorPair)
  xpub_to_descriptor extended_pubkey fingerprint network address_type =
      parse_key (X.xpub_from_str extended_pubkey) (X.fingerprint_from_hex fingerprint) (λ xpub f.
        with_type address_type (λ t.
          printed X.to_string
            (Templates.xpub_to_descriptor P M xpub f (network_into_bdk network) t)))

  -- `seed_to_xpriv`
  unfoldable pub seed_to_xpriv : List ℕ → Network → JsResult String
  seed_to_xpriv seed network =
      map_ok X.xpriv_text (key_error (Templates.seed_to_xpriv P M seed (network_into_bdk network)))

  -- The text of an extended key.
  abbrev pub extended_text : ExtendedKey K → String
  extended_text (ExtendedKey.private xprv) = X.xpriv_text xprv
  extended_text (ExtendedKey.public xpub) = X.xpub_text xpub

  -- `slip10_to_extended`, on what `from_value` makes of its argument.
  unfoldable pub slip10_to_extended : Result String Slip10Node → Network → JsResult String
  slip10_to_extended slip10 network = elim (js_error slip10) [
    | err e ↦ err e
    | ok node ↦
        map_ok extended_text
          (key_error (Slip10.slip10_to_extended P node (network_into_bdk network)))
  ]
