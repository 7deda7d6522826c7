-- ===== src/Descriptor/Templates.antt =====
-- The descriptor pairs: which template an address type has, and how a pair is built.
pub mod Laws
use bdk_wasm.Base.{ℕ, List, Result, ok, err}
use bdk_wasm.Base.Results.{◌>>=◌}
use bdk_wasm.Bdk.Kinds.{BdkNetwork, BdkAddressType, BdkKeychainKind}
use bdk_wasm.Bdk.Keys.{KeyTypes, Xpriv, Xpub, KeyLib, Bip, TemplateLib}

module _ {K : KeyTypes} (M : TemplateLib K) where
  -- What `build_xpriv_descriptor` and `build_descriptor` do with the two templates.
  abbrev pub build_pair : M.Template → M.Template → BdkNetwork → Result K.Error (M.Out × M.Out)
  build_pair ext_template int_template network = do
    ext ← M.build_template ext_template network
    int ← M.build_template int_template network
    _ ← M.sanity_check ext
    _ ← M.sanity_check int
    ok (ext, int)

  -- `build_xpriv_descriptor`
  unfoldable pub build_xpriv_descriptor :
      (Xpriv K → BdkKeychainKind → M.Template)
      → Xpriv K
      → BdkNetwork
      → Result K.Error (M.Out × M.Out)
  build_xpriv_descriptor constructor xprv network =
      build_pair (constructor xprv BdkKeychainKind.external)
        (constructor xprv BdkKeychainKind.internal) network

  -- `build_descriptor`
  unfoldable pub build_descriptor :
      {Key : Type 0}
      → (Key → List ℕ → BdkKeychainKind → M.Template)
      → Key
      → List ℕ
      → BdkNetwork
      → Result K.Error (M.Out × M.Out)
  build_descriptor constructor key fingerprint network =
      build_pair (constructor key fingerprint BdkKeychainKind.external)
        (constructor key fingerprint BdkKeychainKind.internal) network

module _ {K : KeyTypes} (P : KeyLib K) (M : TemplateLib K) where
  -- `seed_to_xpriv`
  unfoldable pub seed_to_xpriv : List ℕ → BdkNetwork → Result K.Error (Xpriv K)
  seed_to_xpriv seed network = P.new_master network seed

  abbrev unsupported : Result K.Error (M.Out × M.Out)
  unsupported = err (P.message "Unsupported address type")

  -- The match of `seed_to_descriptor`.
  unfoldable pub private_descriptor :
      BdkAddressType → Xpriv K → BdkNetwork → Result K.Error (M.Out × M.Out)
  private_descriptor BdkAddressType.p2pkh = build_xpriv_descriptor M (M.private_template Bip.bip44)
  private_descriptor BdkAddressType.p2sh = build_xpriv_descriptor M (M.private_template Bip.bip49)
  private_descriptor BdkAddressType.p2wpkh = build_xpriv_descriptor M (M.private_template Bip.bip84)
  private_descriptor BdkAddressType.p2tr = build_xpriv_descriptor M (M.private_template Bip.bip86)
  private_descriptor _ = λ xprv network. unsupported

  -- `seed_to_descriptor`
  unfoldable pub seed_to_descriptor :
      List ℕ → BdkNetwork → BdkAddressType → Result K.Error (M.Out × M.Out)
  unfolding seed_to_xpriv
  seed_to_descriptor seed network address_type = do
    xprv ← seed_to_xpriv seed network
    private_descriptor address_type xprv network

  -- `xpriv_to_descriptor`
  unfoldable pub xpriv_to_descriptor :
      Xpriv K → List ℕ → BdkNetwork → BdkAddressType → Result K.Error (M.Out × M.Out)
  xpriv_to_descriptor xprv fingerprint network BdkAddressType.p2pkh =
      build_descriptor M (M.xpriv_template Bip.bip44) xprv fingerprint network
  xpriv_to_descriptor xprv fingerprint network BdkAddressType.p2sh =
      build_descriptor M (M.xpriv_template Bip.bip49) xprv fingerprint network
  xpriv_to_descriptor xprv fingerprint network BdkAddressType.p2wpkh =
      build_descriptor M (M.xpriv_template Bip.bip84) xprv fingerprint network
  xpriv_to_descriptor xprv fingerprint network BdkAddressType.p2tr =
      build_descriptor M (M.xpriv_template Bip.bip86) xprv fingerprint network
  xpriv_to_descriptor xprv fingerprint network _ = unsupported

  -- `xpub_to_descriptor`
  unfoldable pub xpub_to_descriptor :
      Xpub K → List ℕ → BdkNetwork → BdkAddressType → Result K.Error (M.Out × M.Out)
  xpub_to_descriptor xpub fingerprint network BdkAddressType.p2pkh =
      build_descriptor M (M.xpub_template Bip.bip44) xpub fingerprint network
  xpub_to_descriptor xpub fingerprint network BdkAddressType.p2sh =
      build_descriptor M (M.xpub_template Bip.bip49) xpub fingerprint network
  xpub_to_descriptor xpub fingerprint network BdkAddressType.p2wpkh =
      build_descriptor M (M.xpub_template Bip.bip84) xpub fingerprint network
  xpub_to_descriptor xpub fingerprint network BdkAddressType.p2tr =
      build_descriptor M (M.xpub_template Bip.bip86) xpub fingerprint network
  xpub_to_descriptor xpub fingerprint network _ = unsupported
