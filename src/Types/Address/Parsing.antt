-- ===== src/Types/Address/Parsing.antt =====
-- What reading an address gives.
use bdk_wasm.Base.{◌≡◌, ap, ◌↔◌, ◌⊎◌, inl, inr, String, ok, err, arith}
use bdk_wasm.Base.Results.{Result-cases}
use bdk_wasm.Bdk.Opaque.{BdkTypes}
use bdk_wasm.Bdk.Errors.{ParseError}
use bdk_wasm.Bdk.Addresses.{AddressLib}
use bdk_wasm.Types.Wrapper.{wrap}
use bdk_wasm.Types.Network.{Network, network_into_bdk}
use bdk_wasm.Types.Error.{BdkError, Host}
use bdk_wasm.Types.Address.{from_parse_error}
use bdk_wasm.Types.Address.Methods.{address_from_string}

module _ {T : BdkTypes} (H : Host T) (L : AddressLib T) where
  -- Reading a text yields an address exactly when the text parses and the parsed address is valid on
  -- the network; it yields an error exactly when one of these two steps fails, and then the error
  -- of the first that does.
  pub address_from_string-steps :
      (text : String) (network : Network)
      → ((a : L.Address)
          → (address_from_string H L text network ≡ ok (wrap a)) ↔ (
              (u : L.Unchecked) × (L.from_str text ≡ ok u)
              × (L.require_network u (network_into_bdk network) ≡ ok a)))
        × ((e : BdkError T)
            → (address_from_string H L text network ≡ err e) ↔ (
                (p : ParseError T) × (from_parse_error H p ≡ e)
                × ((L.from_str text ≡ err p)
                    ⊎ ((u : L.Unchecked) × (L.from_str text ≡ ok u)
                        × (L.require_network u (network_into_bdk network) ≡ err p)))))
  unfolding address_from_string
  address_from_string-steps text network = elim (Result-cases (L.from_str text)) [
    | inr (p, e) ↦ (
      λ x. (λ h. absurd (ground arith), λ (u, q, _). absurd (ground arith)),
      λ x. (
        λ h. (p, ground arith, inl e),
        λ (q, m, why). elim why [
          | inl g ↦ let same : p ≡ q = ground arith in ground (arith, ap (from_parse_error H) same)
          | inr (v, g, _) ↦ absurd (ground arith)
        ],
      ),
    )
    | inl (u, e) ↦ elim (Result-cases (L.require_network u (network_into_bdk network))) [
      | inr (p, f) ↦ (
        λ x. (λ h. absurd (ground arith), λ (v, q, m). absurd (ground arith)),
        λ x. (
          λ h. (p, ground arith, inr (u, e, f)),
          λ (q, m, why). elim why [
            | inl g ↦ absurd (ground arith)
            | inr (v, g, k) ↦
                let same : u ≡ v = ground arith in
                let also : p ≡ q = cc in ground (arith, ap (from_parse_error H) also)
          ],
        ),
      )
      | inl (a, f) ↦ (
        λ x. (λ h. (u, e, ground arith), λ (v, q, m). ground arith),
        λ x. (λ h. absurd (ground arith), λ (q, m, why). absurd (ground arith)),
      )
    ]
  ]
