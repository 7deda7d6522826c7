-- ===== src/Descriptor/Slip10.antt =====
-- `slip10_to_extended` and its helper, with the node of src/types/slip10.rs. A text is the list of
-- its bytes in UTF-8, as the slice in `strip_0x_prefix` counts them.
pub mod Laws
use bdk_wasm.Base.{ℕ, ◌/◌, ◌%◌, ◌^◌, Bool, false, true, ◌&&◌, ◌||◌, Option, none, some}
use bdk_wasm.Base.{List, [], ◌∷◌, Result, ok, err, ◌==◌, leb, ltb, if◌then◌else◌}
use bdk_wasm.Base.Results.{◌>>=◌}
use bdk_wasm.Bdk.Kinds.{BdkNetwork}
use bdk_wasm.Bdk.Keys.{KeyTypes, KeyLib, ExtendedKey}

pub record Slip10Node : Type 0 where
  pub depth : ℕ
  pub master_fingerprint : Option ℕ
  pub parent_fingerprint : ℕ
  pub index : ℕ
  pub private_key : Option (List ℕ)
  pub public_key : List ℕ
  pub chain_code : List ℕ
  pub curve : List ℕ

-- `s.starts_with("0x") || s.starts_with("0X")`
abbrev pub has_0x_prefix : List ℕ → Bool
has_0x_prefix (c ∷ d ∷ _) = c == b'0' && (d == b'x' || d == b'X')
has_0x_prefix _ = false

-- `&s[2..]` of a text of two bytes or more
abbrev pub drop_two : List ℕ → List ℕ
drop_two (c ∷ d ∷ rest) = rest
drop_two rest = []

-- `strip_0x_prefix`
unfoldable pub strip_0x_prefix : List ℕ → List ℕ
strip_0x_prefix s = if has_0x_prefix s then drop_two s else s

-- `u32::to_be_bytes`
abbrev pub to_be_bytes : ℕ → List ℕ
to_be_bytes n = (n / 2 ^ 24 % 256) ∷ (n / 2 ^ 16 % 256) ∷ (n / 2 ^ 8 % 256) ∷ (n % 256) ∷ []

module _ {K : KeyTypes} (P : KeyLib K) where
  -- The arm of the match for a node with a private key.
  unfoldable pub private_key_of :
      Slip10Node → BdkNetwork → K.ChainCode → List ℕ → Result K.Error (ExtendedKey K)
  private_key_of node network chain_code priv_key = do
    priv_key_vec ← P.vec_from_hex (strip_0x_prefix priv_key)
    private_key ← P.secret_key_from_slice priv_key_vec
    ok (
        ExtendedKey.private (record {
          network = P.kind_of_network network;
          depth = node.depth;
          parent_fingerprint = to_be_bytes node.parent_fingerprint;
          child_number = P.child_number_of node.index;
          chain_code = chain_code;
          private_key = private_key;
        }))

  -- The arm for a node without one.
  unfoldable pub public_key_of :
      Slip10Node → BdkNetwork → K.ChainCode → Result K.Error (ExtendedKey K)
  public_key_of node network chain_code = do
    pubkey_vec ← P.vec_from_hex (strip_0x_prefix node.public_key)
    public_key ← P.public_key_from_slice pubkey_vec
    ok (
        ExtendedKey.public (record {
          network = P.kind_of_network network;
          depth = node.depth;
          parent_fingerprint = to_be_bytes node.parent_fingerprint;
          child_number = P.child_number_of node.index;
          chain_code = chain_code;
          public_key = public_key;
        }))

  -- `slip10_to_extended`
  unfoldable pub slip10_to_extended : Slip10Node → BdkNetwork → Result K.Error (ExtendedKey K)
  slip10_to_extended node network = do
    chain_code ← P.chain_code_from_hex (strip_0x_prefix node.chain_code)
    elim node.private_key [
      | some priv_key ↦ private_key_of node network chain_code priv_key
      | none ↦ public_key_of node network chain_code
    ]
