-- ===== src/Types/Keychain.antt =====
-- src/types/keychain.rs: the keychain kinds. `invalid` is as in Types/Network.antt.
use bdk_wasm.Base.{ℕ}
use bdk_wasm.Bdk.Kinds.{BdkKeychainKind}

pub data KeychainKind : Type 0 where
  external internal invalid : KeychainKind

-- `From<BdkKeychainKind> for KeychainKind`
unfoldable pub keychain_from_bdk : BdkKeychainKind → KeychainKind
keychain_from_bdk BdkKeychainKind.external = KeychainKind.external
keychain_from_bdk BdkKeychainKind.internal = KeychainKind.internal

-- `From<KeychainKind> for BdkKeychainKind`
unfoldable pub keychain_into_bdk : KeychainKind → BdkKeychainKind
keychain_into_bdk KeychainKind.external = BdkKeychainKind.external
keychain_into_bdk KeychainKind.internal = BdkKeychainKind.internal
keychain_into_bdk _ = BdkKeychainKind.external

pub record SpkIndexed : Type 0 where
  pub keychain : KeychainKind
  pub index : ℕ
