-- ===== src/Bdk/Keys.antt =====
-- Keys, descriptor templates and their printing, of bitcoin and bdk_wallet. `Error` is
-- `anyhow::Error`, which every error of these libraries converts into.
use bdk_wasm.Base.{ℕ, String, List, Result}
use bdk_wasm.Bdk.Kinds.{BdkNetwork, BdkNetworkKind, BdkKeychainKind}

pub record KeyTypes : Type 1 where
  pub ChainCode : Type 0
  pub SecretKey : Type 0
  pub PublicKey : Type 0
  pub ChildNumber : Type 0
  pub Error : Type 0

-- A fingerprint is its four bytes.
pub record Xpriv (K : KeyTypes) : Type 0 where
  pub network : BdkNetworkKind
  pub depth : ℕ
  pub parent_fingerprint : List ℕ
  pub child_number : K.ChildNumber
  pub chain_code : K.ChainCode
  pub private_key : K.SecretKey

pub record Xpub (K : KeyTypes) : Type 0 where
  pub network : BdkNetworkKind
  pub depth : ℕ
  pub parent_fingerprint : List ℕ
  pub child_number : K.ChildNumber
  pub chain_code : K.ChainCode
  pub public_key : K.PublicKey

pub data ExtendedKey (K : KeyTypes) : Type 0 where
  private : Xpriv K → ExtendedKey K
  public : Xpub K → ExtendedKey K

-- Parsing; a text is its bytes in UTF-8.
pub record KeyLib (K : KeyTypes) : Type 0 where
  pub kind_of_network : BdkNetwork → BdkNetworkKind
  pub chain_code_from_hex : List ℕ → Result K.Error K.ChainCode
  pub vec_from_hex : List ℕ → Result K.Error (List ℕ)
  pub secret_key_from_slice : List ℕ → Result K.Error K.SecretKey
  pub public_key_from_slice : List ℕ → Result K.Error K.PublicKey
  pub child_number_of : ℕ → K.ChildNumber
  pub new_master : BdkNetwork → List ℕ → Result K.Error (Xpriv K)
  -- `anyhow!`
  pub message : String → K.Error

-- The BIPs that there are templates for, and the templates, each over a key.
pub data Bip : Type 0 where
  bip44 bip49 bip84 bip86 : Bip

pub record TemplateLib (K : KeyTypes) : Type 1 where
  pub Template : Type 0
  -- `DescriptorTemplateOut`
  pub Out : Type 0
  pub private_template : Bip → Xpriv K → BdkKeychainKind → Template
  pub xpriv_template : Bip → Xpriv K → List ℕ → BdkKeychainKind → Template
  pub xpub_template : Bip → Xpub K → List ℕ → BdkKeychainKind → Template
  pub build_template : Template → BdkNetwork → Result K.Error Out
  pub sanity_check : Out → Result K.Error (Unit {0})

-- The texts of keys and descriptors. A descriptor is printed with its secret keys or without.
pub record TextLib {K : KeyTypes} (M : TemplateLib K) : Type 0 where
  pub xpriv_from_str : String → Result String (Xpriv K)
  pub xpub_from_str : String → Result String (Xpub K)
  pub fingerprint_from_hex : String → Result String (List ℕ)
  pub xpriv_text : Xpriv K → String
  pub xpub_text : Xpub K → String
  pub error_text : K.Error → String
  pub to_string_with_secret : M.Out → String
  pub to_string : M.Out → String
