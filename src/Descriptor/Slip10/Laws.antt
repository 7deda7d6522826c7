-- ===== src/Descriptor/Slip10/Laws.antt =====
-- What an extended key takes from a SLIP-10 node.
use bdk_wasm.Base.{
  inl, inr, ℕ, ◌+◌, ◌*◌, ◌^◌, ◌<◌, ◌≡◌, Bool, true, false, ◌||◌, Option, none, some,
}
use bdk_wasm.Base.{
  List, [], ◌∷◌, ok, arith, is_some, map_option, ◌==◌, Option-cases, unwrap_or, if◌then◌else◌,
}
use bdk_wasm.Base.Results.{Result-cases}
use bdk_wasm.Bdk.Kinds.{BdkNetwork, BdkNetworkKind}
use bdk_wasm.Bdk.Keys.{KeyTypes, KeyLib, ExtendedKey}
use bdk_wasm.Descriptor.Slip10.{
  Slip10Node, has_0x_prefix, strip_0x_prefix, to_be_bytes, private_key_of, public_key_of,
  slip10_to_extended,
}

-- The number that four bytes stand for, the highest first.
abbrev pub of_be_bytes : List ℕ → ℕ
of_be_bytes (a ∷ b ∷ c ∷ d ∷ []) = a * 2 ^ 24 + b * 2 ^ 16 + c * 2 ^ 8 + d
of_be_bytes _ = 0

of_be_bytes-to_be_bytes : (n : ℕ) → n < 2 ^ 32 → of_be_bytes (to_be_bytes n) ≡ n
of_be_bytes-to_be_bytes n h = omega arith

module _ {K : KeyTypes} where
  abbrev pub is_private : ExtendedKey K → Bool
  is_private (ExtendedKey.private _) = true
  is_private (ExtendedKey.public _) = false

  abbrev pub network_of : ExtendedKey K → BdkNetworkKind
  network_of (ExtendedKey.private k) = k.network
  network_of (ExtendedKey.public k) = k.network

  abbrev pub depth_of : ExtendedKey K → ℕ
  depth_of (ExtendedKey.private k) = k.depth
  depth_of (ExtendedKey.public k) = k.depth

  abbrev pub child_of : ExtendedKey K → K.ChildNumber
  child_of (ExtendedKey.private k) = k.child_number
  child_of (ExtendedKey.public k) = k.child_number

  abbrev pub parent_of : ExtendedKey K → List ℕ
  parent_of (ExtendedKey.private k) = k.parent_fingerprint
  parent_of (ExtendedKey.public k) = k.parent_fingerprint

module _ {K : KeyTypes} (P : KeyLib K) where
  -- `k` carries the data of the node, over the network's kind.
  abbrev pub CarriesNode : Slip10Node → BdkNetwork → ExtendedKey K → Type 0
  CarriesNode node network k =
      (is_private k ≡ is_some node.private_key)
      × (network_of k ≡ P.kind_of_network network)
      × (depth_of k ≡ node.depth)
      × (child_of k ≡ P.child_number_of node.index)
      × (of_be_bytes (parent_of k) ≡ node.parent_fingerprint)

  private_carries :
      (node : Slip10Node) (network : BdkNetwork) (c : K.ChainCode) (s : List ℕ) {k : ExtendedKey K}
      → node.parent_fingerprint < 2 ^ 32
      → node.private_key ≡ some s
      → private_key_of P node network c s ≡ ok k
      → CarriesNode node network k
  unfolding private_key_of
  private_carries node network c s small given e =
      elim (Result-cases (P.vec_from_hex (strip_0x_prefix s))) [
        | inr (u, q) ↦ absurd (ground arith)
        | inl (v, q) ↦ elim (Result-cases (P.secret_key_from_slice v)) [
          | inr (u, r) ↦ absurd (ground arith)
          | inl (x, r) ↦ ground (arith, of_be_bytes-to_be_bytes node.parent_fingerprint)
        ]
      ]

  public_carries :
      (node : Slip10Node) (network : BdkNetwork) (c : K.ChainCode) {k : ExtendedKey K}
      → node.parent_fingerprint < 2 ^ 32
      → node.private_key ≡ none
      → public_key_of P node network c ≡ ok k
      → CarriesNode node network k
  unfolding public_key_of
  public_carries node network c small given e =
      elim (Result-cases (P.vec_from_hex (strip_0x_prefix node.public_key))) [
        | inr (u, q) ↦ absurd (ground arith)
        | inl (v, q) ↦ elim (Result-cases (P.public_key_from_slice v)) [
          | inr (u, r) ↦ absurd (ground arith)
          | inl (x, r) ↦ ground (arith, of_be_bytes-to_be_bytes node.parent_fingerprint)
        ]
      ]

  -- A key that is made from a node, whose parent fingerprint has 32 bits, is private exactly if the
  -- node has a private key. It has the kind of the network, the node's depth and its index as the
  -- child number, and its four fingerprint bytes stand for the node's parent fingerprint.
  pub slip10_to_extended-CarriesNode :
      (node : Slip10Node) (network : BdkNetwork) {k : ExtendedKey K}
      → node.parent_fingerprint < 2 ^ 32
      → slip10_to_extended P node network ≡ ok k
      → CarriesNode node network k
  unfolding slip10_to_extended
  slip10_to_extended-CarriesNode node network small e =
      elim (Result-cases (P.chain_code_from_hex (strip_0x_prefix node.chain_code))) [
        | inr (u, q) ↦ absurd (ground arith)
        | inl (c, q) ↦ elim (Option-cases node.private_key) [
          | inl absent ↦ public_carries node network c small absent (ground arith)
          | inr (s, given) ↦ private_carries node network c s small given (ground arith)
        ]
      ]

  -- The public key of a node that has a private key, its master fingerprint and the name of its
  -- curve are never looked at: nodes that differ only in these give the same key or error.
  pub slip10_to_extended-ignores :
      (node : Slip10Node) (network : BdkNetwork) (m : Option ℕ) (curve public_key : List ℕ)
      → slip10_to_extended P
          (record node {
            master_fingerprint = m;
            curve = curve;
            public_key = if is_some node.private_key then public_key else node.public_key;
          })
          network
        ≡ slip10_to_extended P node network
  unfolding slip10_to_extended private_key_of public_key_of
  slip10_to_extended-ignores node network m curve public_key =
      elim (Option-cases node.private_key) [
        | inl absent ↦ simp absent
        | inr (s, given) ↦ simp given
      ]

-- `0x` or `0X` in front of a text.
abbrev pub add_prefix : ℕ → List ℕ → List ℕ
add_prefix x s = b'0' ∷ x ∷ s

strip_0x_prefix-add_prefix :
    (x : ℕ) (s : List ℕ) → (x == b'x' || x == b'X') ≡ true → strip_0x_prefix (add_prefix x s) ≡ s
unfolding strip_0x_prefix
strip_0x_prefix-add_prefix x s h = rw h

strip_0x_prefix_plain : (s : List ℕ) → has_0x_prefix s ≡ false → strip_0x_prefix s ≡ s
unfolding strip_0x_prefix
strip_0x_prefix_plain s h = rw h

module _ {K : KeyTypes} (P : KeyLib K) where
  -- Writing `0x` or `0X` in front of the chain code, the private key and the public key of a node
  -- whose texts have no such prefix changes nothing.
  pub slip10_to_extended-add_prefix :
      (x : ℕ) (node : Slip10Node) (network : BdkNetwork)
      → (x == b'x' || x == b'X') ≡ true
      → has_0x_prefix node.chain_code ≡ false
      → has_0x_prefix node.public_key ≡ false
      → has_0x_prefix (unwrap_or node.private_key []) ≡ false
      → slip10_to_extended P
          (record node {
            chain_code = add_prefix x node.chain_code;
            public_key = add_prefix x node.public_key;
            private_key = map_option (add_prefix x) node.private_key;
          })
          network
        ≡ slip10_to_extended P node network
  unfolding slip10_to_extended private_key_of public_key_of
  slip10_to_extended-add_prefix x node network h c p s = elim (Option-cases node.private_key) [
    | inl absent ↦ simp (
      absent,
      strip_0x_prefix-add_prefix x node.chain_code h,
      strip_0x_prefix-add_prefix x node.public_key h,
      strip_0x_prefix_plain node.chain_code c,
      strip_0x_prefix_plain node.public_key p,
    )
    | inr (t, given) ↦ simp (
      given,
      strip_0x_prefix-add_prefix x node.chain_code h,
      strip_0x_prefix-add_prefix x t h,
      strip_0x_prefix_plain node.chain_code c,
      strip_0x_prefix_plain t (rw given at s),
    )
  ]
