-- ===== src/Descriptor/Templates/Laws.antt =====
-- The three kinds of source give descriptors of the same BIP, and a pair is given out only whole
-- and checked.
use bdk_wasm.Base.{ℕ, ◌≡◌, refl, ◌↔◌, Option, none, some, List, Result, ok, err, arith}
use bdk_wasm.Bdk.Kinds.{BdkNetwork, BdkAddressType, BdkKeychainKind}
use bdk_wasm.Bdk.Keys.{KeyTypes, Xpriv, Xpub, KeyLib, Bip, TemplateLib}
use bdk_wasm.Descriptor.Templates.{
  build_pair, build_xpriv_descriptor, build_descriptor, private_descriptor, seed_to_descriptor,
  xpriv_to_descriptor, xpub_to_descriptor,
}

-- The BIP of an address type, for the types that have one with a single key.
abbrev pub bip_of : BdkAddressType → Option Bip
bip_of BdkAddressType.p2pkh = some Bip.bip44
bip_of BdkAddressType.p2sh = some Bip.bip49
bip_of BdkAddressType.p2wpkh = some Bip.bip84
bip_of BdkAddressType.p2tr = some Bip.bip86
bip_of _ = none

module _ {K : KeyTypes} (P : KeyLib K) (M : TemplateLib K) where
  -- `r` is the pair of the descriptors of two templates on one network, each built and checked.
  abbrev pub IsPairOf :
      (BdkKeychainKind → M.Template) → BdkNetwork → Result K.Error (M.Out × M.Out) → Type 0
  IsPairOf template network r =
      (ext int : M.Out)
      → (r ≡ ok (ext, int)) ↔ (
          (M.build_template (template BdkKeychainKind.external) network ≡ ok ext)
          × (M.build_template (template BdkKeychainKind.internal) network ≡ ok int)
          × (M.sanity_check ext ≡ ok tt)
          × (M.sanity_check int ≡ ok tt))

  build_pair-IsPairOf :
      (template : BdkKeychainKind → M.Template) (network : BdkNetwork)
      → IsPairOf template network (
          build_pair M
            (template BdkKeychainKind.external)
            (template BdkKeychainKind.internal)
            network)
  build_pair-IsPairOf template network ext int = (λ h. ground arith, λ h. ground arith)

  -- What a source gives for a BIP, or the refusal for an address type that has none.
  abbrev pub Describes :
      Option Bip
      → (Bip → BdkKeychainKind → M.Template)
      → BdkNetwork
      → Result K.Error (M.Out × M.Out)
      → Type 0
  Describes none template network r = r ≡ err (P.message "Unsupported address type")
  Describes (some bip) template network r = IsPairOf (template bip) network r

  pub private_descriptor-Describes :
      (t : BdkAddressType) (xprv : Xpriv K) (network : BdkNetwork)
      → Describes
          (bip_of t)
          (λ bip. M.private_template bip xprv)
          network
          (private_descriptor P M t xprv network)
  unfolding private_descriptor build_xpriv_descriptor
  private_descriptor-Describes BdkAddressType.p2pkh xprv network =
      build_pair-IsPairOf (M.private_template Bip.bip44 xprv) network
  private_descriptor-Describes BdkAddressType.p2sh xprv network =
      build_pair-IsPairOf (M.private_template Bip.bip49 xprv) network
  private_descriptor-Describes BdkAddressType.p2wpkh xprv network =
      build_pair-IsPairOf (M.private_template Bip.bip84 xprv) network
  private_descriptor-Describes BdkAddressType.p2tr xprv network =
      build_pair-IsPairOf (M.private_template Bip.bip86 xprv) network
  private_descriptor-Describes _ xprv network = refl

  pub xpriv_to_descriptor-Describes :
      (t : BdkAddressType) (xprv : Xpriv K) (fingerprint : List ℕ) (network : BdkNetwork)
      → Describes
          (bip_of t)
          (λ bip. M.xpriv_template bip xprv fingerprint)
          network
          (xpriv_to_descriptor P M xprv fingerprint network t)
  unfolding xpriv_to_descriptor build_descriptor
  xpriv_to_descriptor-Describes BdkAddressType.p2pkh xprv f network =
      build_pair-IsPairOf (M.xpriv_template Bip.bip44 xprv f) network
  xpriv_to_descriptor-Describes BdkAddressType.p2sh xprv f network =
      build_pair-IsPairOf (M.xpriv_template Bip.bip49 xprv f) network
  xpriv_to_descriptor-Describes BdkAddressType.p2wpkh xprv f network =
      build_pair-IsPairOf (M.xpriv_template Bip.bip84 xprv f) network
  xpriv_to_descriptor-Describes BdkAddressType.p2tr xprv f network =
      build_pair-IsPairOf (M.xpriv_template Bip.bip86 xprv f) network
  xpriv_to_descriptor-Describes _ xprv f network = refl

  pub xpub_to_descriptor-Describes :
      (t : BdkAddressType) (xpub : Xpub K) (fingerprint : List ℕ) (network : BdkNetwork)
      → Describes
          (bip_of t)
          (λ bip. M.xpub_template bip xpub fingerprint)
          network
          (xpub_to_descriptor P M xpub fingerprint network t)
  unfolding xpub_to_descriptor build_descriptor
  xpub_to_descriptor-Describes BdkAddressType.p2pkh xpub f network =
      build_pair-IsPairOf (M.xpub_template Bip.bip44 xpub f) network
  xpub_to_descriptor-Describes BdkAddressType.p2sh xpub f network =
      build_pair-IsPairOf (M.xpub_template Bip.bip49 xpub f) network
  xpub_to_descriptor-Describes BdkAddressType.p2wpkh xpub f network =
      build_pair-IsPairOf (M.xpub_template Bip.bip84 xpub f) network
  xpub_to_descriptor-Describes BdkAddressType.p2tr xpub f network =
      build_pair-IsPairOf (M.xpub_template Bip.bip86 xpub f) network
  xpub_to_descriptor-Describes _ xpub f network = refl

  -- From a seed (whose master key can be derived), from a private key and from a public key, an
  -- address type gets descriptors of one and the same BIP: a pair comes out exactly when the
  -- external and the internal template build on the network and both pass the sanity check, the
  -- external descriptor first. P2WSH and unknown types are refused by all three.
  pub descriptors_by_bip :
      (t : BdkAddressType) (network : BdkNetwork) (seed fingerprint : List ℕ) (xprv : Xpriv K)
      (xpub : Xpub K)
      → P.new_master network seed ≡ ok xprv
      → Describes
          (bip_of t)
          (λ bip. M.private_template bip xprv)
          network
          (seed_to_descriptor P M seed network t)
        × Describes
            (bip_of t)
            (λ bip. M.xpriv_template bip xprv fingerprint)
            network
            (xpriv_to_descriptor P M xprv fingerprint network t)
        × Describes
            (bip_of t)
            (λ bip. M.xpub_template bip xpub fingerprint)
            network
            (xpub_to_descriptor P M xpub fingerprint network t)
  unfolding seed_to_descriptor
  descriptors_by_bip t network seed fingerprint xprv xpub master = (
    rw master (private_descriptor-Describes t xprv network),
    xpriv_to_descriptor-Describes t xprv fingerprint network,
    xpub_to_descriptor-Describes t xpub fingerprint network,
  )
