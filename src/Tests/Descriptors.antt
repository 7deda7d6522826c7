-- ===== src/Tests/Descriptors.antt =====
-- Descriptors of keys that are numbers.
use bdk_wasm.Base.{ℕ, ◌≡◌, refl, String, List, [], ◌∷◌, none, some, ok, err, arith}
use bdk_wasm.Bdk.Kinds.{BdkNetwork, BdkNetworkKind, BdkAddressType, BdkKeychainKind}
use bdk_wasm.Bdk.Keys.{KeyTypes, Xpriv, Xpub, ExtendedKey, KeyLib, Bip, TemplateLib}
use bdk_wasm.Descriptor.Templates
use bdk_wasm.Descriptor.Templates.Laws.{bip_of, Describes, descriptors_by_bip}
use bdk_wasm.Descriptor.Slip10.{Slip10Node, private_key_of, slip10_to_extended, strip_0x_prefix}
use bdk_wasm.Descriptor.Slip10.Laws.{CarriesNode, add_prefix, slip10_to_extended-CarriesNode}
use bdk_wasm.Descriptor.Slip10.Laws.{slip10_to_extended-ignores, slip10_to_extended-add_prefix}

abbrev pub keys : KeyTypes
keys = record {
  ChainCode = List ℕ;
  SecretKey = List ℕ;
  PublicKey = List ℕ;
  ChildNumber = ℕ;
  Error = String;
}

abbrev pub master : Xpriv keys
master = record {
  network = BdkNetworkKind.test;
  depth = 0;
  parent_fingerprint = 0 ∷ 0 ∷ 0 ∷ 0 ∷ [];
  child_number = 0;
  chain_code = [];
  private_key = [];
}

abbrev pub public_master : Xpub keys
public_master = record {
  network = BdkNetworkKind.test;
  depth = 0;
  parent_fingerprint = 0 ∷ 0 ∷ 0 ∷ 0 ∷ [];
  child_number = 0;
  chain_code = [];
  public_key = [];
}

abbrev pub key_lib : KeyLib keys
key_lib = record {
  kind_of_network = λ network. elim network [
    | BdkNetwork.bitcoin ↦ BdkNetworkKind.main
    | _ ↦ BdkNetworkKind.test
  ];
  chain_code_from_hex = λ text. ok text;
  vec_from_hex = λ text. elim text [ [] ↦ err "empty" | b ∷ bs ↦ ok (b ∷ bs) ];
  secret_key_from_slice = λ bytes. ok bytes;
  public_key_from_slice = λ bytes. ok bytes;
  child_number_of = λ n. n;
  new_master = λ _ _. ok master;
  message = λ s. s;
}

-- A template is its BIP and keychain; the templates of BIP 49 fail their check.
abbrev pub templates : TemplateLib keys
templates = record {
  Template = Bip × BdkKeychainKind;
  Out = Bip × BdkKeychainKind;
  private_template = λ bip _ keychain. (bip, keychain);
  xpriv_template = λ bip _ _ keychain. (bip, keychain);
  xpub_template = λ bip _ _ keychain. (bip, keychain);
  build_template = λ t _. ok t;
  sanity_check = λ t. elim t.0 [ Bip.bip49 ↦ err "insane" | _ ↦ ok tt ];
}

descriptors_by_bip_example :
    Describes key_lib templates
      (bip_of BdkAddressType.p2tr)
      (λ bip. templates.private_template bip master)
      BdkNetwork.signet
      (Templates.seed_to_descriptor key_lib templates [] BdkNetwork.signet BdkAddressType.p2tr)
    × Describes key_lib templates
        (bip_of BdkAddressType.p2tr)
        (λ bip. templates.xpriv_template bip master [])
        BdkNetwork.signet
        (Templates.xpriv_to_descriptor key_lib templates master [] BdkNetwork.signet
          BdkAddressType.p2tr)
    × Describes key_lib templates
        (bip_of BdkAddressType.p2tr)
        (λ bip. templates.xpub_template bip public_master [])
        BdkNetwork.signet
        (Templates.xpub_to_descriptor key_lib templates public_master [] BdkNetwork.signet
          BdkAddressType.p2tr)
descriptors_by_bip_example =
    descriptors_by_bip key_lib templates BdkAddressType.p2tr BdkNetwork.signet [] [] master
      public_master refl

abbrev node : Slip10Node
node = record {
  depth = 3;
  parent_fingerprint = 305419896;
  index = 2147483648;
  private_key = some (b'0' ∷ b'x' ∷ 17 ∷ []);
  public_key = 2 ∷ 3 ∷ [];
  chain_code = 5 ∷ 6 ∷ [];
  master_fingerprint = none;
  curve = [];
}

-- The key that the node has.
abbrev extended : ExtendedKey keys
extended = ExtendedKey.private (record {
  network = BdkNetworkKind.main;
  depth = 3;
  parent_fingerprint = 18 ∷ 52 ∷ 86 ∷ 120 ∷ [];
  child_number = 2147483648;
  chain_code = 5 ∷ 6 ∷ [];
  private_key = 17 ∷ [];
})

node_gives_key : slip10_to_extended key_lib node BdkNetwork.bitcoin ≡ ok extended
unfolding slip10_to_extended private_key_of strip_0x_prefix
node_gives_key = refl

slip10_to_extended-CarriesNode_example : CarriesNode key_lib node BdkNetwork.bitcoin extended
slip10_to_extended-CarriesNode_example =
    slip10_to_extended-CarriesNode key_lib node BdkNetwork.bitcoin (omega arith) node_gives_key

slip10_to_extended-ignores_example :
    slip10_to_extended key_lib
      (record node { master_fingerprint = some 1; curve = 7 ∷ []; public_key = 9 ∷ [] })
      BdkNetwork.bitcoin
    ≡ slip10_to_extended key_lib node BdkNetwork.bitcoin
slip10_to_extended-ignores_example =
    slip10_to_extended-ignores key_lib node BdkNetwork.bitcoin (some 1) (7 ∷ []) (9 ∷ [])

abbrev plain : Slip10Node
plain = record node { private_key = none }

slip10_to_extended-add_prefix_example :
    slip10_to_extended key_lib
      (record plain {
        chain_code = add_prefix b'X' (5 ∷ 6 ∷ []);
        public_key = add_prefix b'X' (2 ∷ 3 ∷ []);
      })
      BdkNetwork.bitcoin
    ≡ slip10_to_extended key_lib plain BdkNetwork.bitcoin
slip10_to_extended-add_prefix_example =
    slip10_to_extended-add_prefix key_lib b'X' plain BdkNetwork.bitcoin refl refl refl refl
