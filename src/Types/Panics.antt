-- ===== src/Types/Panics.antt =====
-- When the values of src/types and the constructor of a transaction builder panic.
use bdk_wasm.Base.Results.{Result-cases}
use bdk_wasm.Base.{ℕ, ◌≡◌, ◌↔◌, inl, inr, String, some, err, Outcome, panicked, arith}
use bdk_wasm.Bdk.Kinds.{BdkTxOrdering, BdkAddressType}
use bdk_wasm.Bdk.Opaque.{BdkTypes}
use bdk_wasm.Bdk.Addresses.{AddressLib}
use bdk_wasm.Bdk.Bitcoin.{PsbtLib}
use bdk_wasm.Bdk.Builder.{BuilderLib}
use bdk_wasm.Bdk.Values.{ChangeSetLib}
use bdk_wasm.Types.Wrapper.{deref}
use bdk_wasm.Types.Address.{address_type_from_bdk}
use bdk_wasm.Types.Address.Methods.{AddressInfo, info_address_type}
use bdk_wasm.Types.Amount.{
  Amount, AmountLib, Denomination, denomination_into_bdk, amount_to_float_in,
}
use bdk_wasm.Types.ChangeSet.{ChangeSet, changeset_to_json}
use bdk_wasm.Types.Psbt.{Psbt}
use bdk_wasm.Types.Psbt.Methods.{psbt_to_json}
use bdk_wasm.TxBuilder.{builder_new, ordering_from_bdk}

abbrev pub IsPanic : {A : Type 0} → Outcome A → Type 0
IsPanic r = (message : String) × (r ≡ panicked message)

module _ {T : BdkTypes} where
  to_float_in_panics :
      (A : AmountLib T) (a : Amount T) (d : Denomination)
      → IsPanic (amount_to_float_in A a d) ↔ (d ≡ Denomination.invalid)
  unfolding amount_to_float_in denomination_into_bdk
  to_float_in_panics A a d = (λ h. ground arith, λ e. ("Unsupported denomination", rw e))

  address_type_getter_panics :
      (A : AddressLib T) (i : AddressInfo A)
      → IsPanic (info_address_type A i)
        ↔ (A.address_type (deref i).address ≡ some BdkAddressType.other)
  unfolding info_address_type address_type_from_bdk
  address_type_getter_panics A i =
      (λ h. ground arith, λ e. ("Unsupported address type", rw (e, info_address_type)))

  psbt_to_json_panics :
      (P : PsbtLib T) (p : Psbt T)
      → IsPanic (psbt_to_json P p) ↔ ((e : String) × (P.to_json (deref p) ≡ err e))
  unfolding psbt_to_json
  psbt_to_json_panics P p = (
    λ (_, h). elim (Result-cases (P.to_json (deref p))) [
      | inl (_, e) ↦ cc (rw (e, psbt_to_json) at h)
      | inr failed ↦ failed
    ],
    λ (e, failed). ("Serialization should not fail", rw (failed, psbt_to_json)),
  )

  builder_panics :
      (L : BuilderLib T) (h : ℕ)
      → IsPanic (builder_new L h) ↔ (L.default_ordering ≡ BdkTxOrdering.other)
  unfolding builder_new ordering_from_bdk
  builder_panics L h = (λ p. ground arith, λ e. ("Unsupported ordering", rw (e, builder_new)))

changeset_to_json_panics :
    (C : ChangeSetLib) (c : ChangeSet C)
    → IsPanic (changeset_to_json C c) ↔ ((e : String) × (C.to_json (deref c) ≡ err e))
unfolding changeset_to_json
changeset_to_json_panics C c = (
  λ (_, h). elim (Result-cases (C.to_json (deref c))) [
    | inl (_, e) ↦ cc (rw (e, changeset_to_json) at h)
    | inr failed ↦ failed
  ],
  λ (e, failed). ("Serialization should not fail", rw (failed, changeset_to_json)),
)

-- These panic, and only for these reasons: an amount in a denomination that is none of the nine, the
-- type of an address for which bitcoin has a type beyond the five, a PSBT or a change set for which
-- serde_json fails, and a new builder if bdk_wallet's default ordering is neither of the two.
pub panics_exactly :
    {T : BdkTypes} (A : AmountLib T) (D : AddressLib T) (P : PsbtLib T) (C : ChangeSetLib)
    (L : BuilderLib T) (a : Amount T) (d : Denomination) (i : AddressInfo D) (p : Psbt T)
    (c : ChangeSet C) (h : ℕ)
    → (IsPanic (amount_to_float_in A a d) ↔ (d ≡ Denomination.invalid))
      × (IsPanic (info_address_type D i)
          ↔ (D.address_type (deref i).address ≡ some BdkAddressType.other))
      × (IsPanic (psbt_to_json P p) ↔ ((e : String) × (P.to_json (deref p) ≡ err e)))
      × (IsPanic (changeset_to_json C c) ↔ ((e : String) × (C.to_json (deref c) ≡ err e)))
      × (IsPanic (builder_new L h) ↔ (L.default_ordering ≡ BdkTxOrdering.other))
panics_exactly A D P C L a d i p c h = (
  to_float_in_panics A a d,
  address_type_getter_panics D i,
  psbt_to_json_panics P p,
  changeset_to_json_panics C c,
  builder_panics L h,
)
