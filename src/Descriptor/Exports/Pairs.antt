-- ===== src/Descriptor/Exports/Pairs.antt =====
-- What the pairs that the exported descriptor functions give out hold.
use bdk_wasm.Base.{ℕ, ◌≡◌, refl, inl, inr, String, Option, none, some, List, Result, ok, err}
use bdk_wasm.Base.{Outcome, returned, arith}
use bdk_wasm.Base.Results.{JsResult, Outcome-cases, Result-cases}
use bdk_wasm.Bdk.Kinds.{BdkNetwork, BdkAddressType, BdkKeychainKind}
use bdk_wasm.Bdk.Keys.{KeyTypes, Xpriv, Xpub, KeyLib, Bip, TemplateLib, TextLib}
use bdk_wasm.Types.Network.{Network, network_into_bdk}
use bdk_wasm.Types.Address.{AddressType, address_type_into_bdk}
use bdk_wasm.Descriptor.Templates
use bdk_wasm.Descriptor.Templates.Laws.{
  bip_of, Describes, private_descriptor-Describes, xpriv_to_descriptor-Describes,
  xpub_to_descriptor-Describes,
}
use bdk_wasm.Descriptor.Exports.{DescriptorPair, printed, with_type, parse_key}
use bdk_wasm.Descriptor.Exports.{seed_to_descriptor, xpriv_to_descriptor, xpub_to_descriptor}

parse_key_ok :
    {Key : Type 0} (k : Result String Key) (f : Result String (List ℕ))
    (call : Key → List ℕ → Outcome (JsResult DescriptorPair)) (pair : DescriptorPair)
    → parse_key k f call ≡ returned (ok pair)
    → (key : Key) × (fingerprint : List ℕ) × (k ≡ ok key)
      × (f ≡ ok fingerprint)
      × (call key fingerprint ≡ returned (ok pair))
parse_key_ok (err _) _ call pair e = absurd (cc e)
parse_key_ok (ok _) (err _) call pair e = absurd (cc e)
parse_key_ok (ok key) (ok fingerprint) call pair e = (key, fingerprint, refl, refl, e)

module _ {K : KeyTypes} (P : KeyLib K) {M : TemplateLib K} (X : TextLib M) where
  -- What a pair that is given out consists of: the texts of the external and the internal descriptor
  -- of one BIP, which is the address type's.
  abbrev pub IsTextOf :
      (M.Out → String)
      → (Bip → BdkKeychainKind → M.Template)
      → BdkNetwork
      → AddressType
      → DescriptorPair
      → Type 0
  IsTextOf text template network t pair =
      (b : BdkAddressType) × (bip : Bip) × (ext : M.Out) × (int : M.Out) × (address_type_into_bdk t
        ≡ returned b)
      × (bip_of b ≡ some bip)
      × (M.build_template (template bip BdkKeychainKind.external) network ≡ ok ext)
      × (M.build_template (template bip BdkKeychainKind.internal) network ≡ ok int)
      × (M.sanity_check ext ≡ ok tt)
      × (M.sanity_check int ≡ ok tt)
      × (pair ≡ record { external = text ext; internal = text int })

  printed_ok :
      (text : M.Out → String) (r : Result K.Error (M.Out × M.Out)) (pair : DescriptorPair)
      → printed P X text r ≡ ok pair
      → (ext : M.Out) × (int : M.Out) × (r ≡ ok (ext, int))
        × (pair ≡ record { external = text ext; internal = text int })
  printed_ok text (ok (ext, int)) pair e = (ext, int, refl, ground arith)
  printed_ok text (err _) pair e = absurd (ground arith)

  printed-IsTextOf :
      (text : M.Out → String) (template : Bip → BdkKeychainKind → M.Template) (network : BdkNetwork)
      (t : AddressType) (b : BdkAddressType) (o : Option Bip) (r : Result K.Error (M.Out × M.Out))
      (pair : DescriptorPair)
      → address_type_into_bdk t ≡ returned b
      → bip_of b ≡ o
      → Describes P M o template network r
      → printed P X text r ≡ ok pair
      → IsTextOf text template network t pair
  printed-IsTextOf text template network t b none r pair type of_bip refused e =
      let (ext, int, made, _) = printed_ok text r pair e in absurd (cc)
  printed-IsTextOf text template network t b (some bip) r pair type of_bip whole e =
      let (ext, int, made, same) = printed_ok text r pair e in
      let (build_ext, build_int, check_ext, check_int) = (whole ext int).0 made in
      (b, bip, ext, int, type, of_bip, build_ext, build_int, check_ext, check_int, same)

  with_type_ok :
      (t : AddressType) (call : BdkAddressType → JsResult DescriptorPair) (pair : DescriptorPair)
      → with_type t call ≡ returned (ok pair)
      → (b : BdkAddressType) × (address_type_into_bdk t ≡ returned b) × (call b ≡ ok pair)
  with_type_ok t call pair e = elim (Outcome-cases (address_type_into_bdk t)) [
    | inl (b, type) ↦ (b, type, cc (rw (type, with_type) at e))
    | inr (m, invalid) ↦ absurd (cc (rw (invalid, with_type) at e))
  ]

  -- A pair that is given out for a private key is the text, secret keys included, of the external and
  -- the internal descriptor of the address type's BIP, over the parsed key and fingerprint and the
  -- network, both of them checked.
  pub xpriv_pair :
      (k f : String) (network : Network) (t : AddressType) (pair : DescriptorPair)
      → xpriv_to_descriptor P X k f network t ≡ returned (ok pair)
      → (xprv : Xpriv K) × (fingerprint : List ℕ) × (X.xpriv_from_str k ≡ ok xprv)
        × (X.fingerprint_from_hex f ≡ ok fingerprint)
        × IsTextOf X.to_string_with_secret
            (λ bip. M.xpriv_template bip xprv fingerprint)
            (network_into_bdk network)
            t
            pair
  unfolding xpriv_to_descriptor
  xpriv_pair k f network t pair e =
      let (xprv, fingerprint, parsed, hex, called) = parse_key_ok _ _ _ pair e in
      let (b, type, made) = with_type_ok t _ pair called in
      (
        xprv,
        fingerprint,
        parsed,
        hex,
        printed-IsTextOf X.to_string_with_secret _ (network_into_bdk network) t b (bip_of b)
            (Templates.xpriv_to_descriptor P M xprv fingerprint (network_into_bdk network) b) pair
            type refl
            (xpriv_to_descriptor-Describes P M b xprv fingerprint (network_into_bdk network)) made,
      )

  -- A pair that is given out for a public key is the text, without secret keys, of the external and
  -- the internal descriptor of the address type's BIP, over the parsed key and fingerprint and the
  -- network, both of them checked.
  pub xpub_pair :
      (k f : String) (network : Network) (t : AddressType) (pair : DescriptorPair)
      → xpub_to_descriptor P X k f network t ≡ returned (ok pair)
      → (xpub : Xpub K) × (fingerprint : List ℕ) × (X.xpub_from_str k ≡ ok xpub)
        × (X.fingerprint_from_hex f ≡ ok fingerprint)
        × IsTextOf X.to_string
            (λ bip. M.xpub_template bip xpub fingerprint)
            (network_into_bdk network)
            t
            pair
  unfolding xpub_to_descriptor
  xpub_pair k f network t pair e =
      let (xpub, fingerprint, parsed, hex, called) = parse_key_ok _ _ _ pair e in
      let (b, type, made) = with_type_ok t _ pair called in
      (
        xpub,
        fingerprint,
        parsed,
        hex,
        printed-IsTextOf X.to_string _ (network_into_bdk network) t b (bip_of b)
            (Templates.xpub_to_descriptor P M xpub fingerprint (network_into_bdk network) b) pair
            type refl
            (xpub_to_descriptor-Describes P M b xpub fingerprint (network_into_bdk network)) made,
      )

  -- A pair that is given out for a seed is the text, secret keys included, of the external and the
  -- internal descriptor of the address type's BIP, over the master key of the seed on the network,
  -- both of them checked.
  pub seed_pair :
      (seed : List ℕ) (network : Network) (t : AddressType) (pair : DescriptorPair)
      → seed_to_descriptor P X seed network t ≡ returned (ok pair)
      → (xprv : Xpriv K) × (P.new_master (network_into_bdk network) seed ≡ ok xprv)
        × IsTextOf X.to_string_with_secret
            (λ bip. M.private_template bip xprv)
            (network_into_bdk network)
            t
            pair
  unfolding seed_to_descriptor Templates.seed_to_descriptor
  seed_pair seed network t pair e =
      let (b, type, made) = with_type_ok t _ pair e in
      elim (Result-cases (P.new_master (network_into_bdk network) seed)) [
        | inr (u, failed) ↦ absurd (cc (rw (failed) at made))
        | inl (xprv, master) ↦ (
          xprv,
          master,
          printed-IsTextOf X.to_string_with_secret (λ bip. M.private_template bip xprv)
              (network_into_bdk network) t b (bip_of b)
              (Templates.private_descriptor P M b xprv (network_into_bdk network)) pair type refl
              (private_descriptor-Describes P M b xprv (network_into_bdk network)) rw (master) at
              made,
        )
      ]
