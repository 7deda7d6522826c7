-- ===== src/TxBuilder/Finish/Codes.antt =====
-- The codes of the errors that `finish` reports.
use bdk_wasm.Base.{ℕ, ◌<◌, ◌≡◌, refl, sym, ap, ◌∙◌, ◌⊎◌, inl, inr, false, Option, none, some}
use bdk_wasm.Base.{List, err, returned, panicked, arith, length, is_empty, leb, map}
use bdk_wasm.Base.{Bool-cases, Option-cases}
use bdk_wasm.Base.Results.{Result-cases, Outcome-cases}
use bdk_wasm.Bdk.Opaque.{BdkTypes}
use bdk_wasm.Bdk.Builder.{BuilderLib, IsLawful}
use bdk_wasm.Types.Wrapper.{into_inner}
use bdk_wasm.Types.Error.{BdkErrorCode, BdkError, Host}
use bdk_wasm.Types.Error.Codes.{discriminant}
use bdk_wasm.ErrorCodes.Sections.{create_tx-IsTransactionCode, fee_bump-IsFeeBumpCode}
use bdk_wasm.TxBuilder.{TxBuilder}
use bdk_wasm.TxBuilder.Errors.{from_add_utxo_error, from_build_fee_bump_error}
use bdk_wasm.TxBuilder.Finish.{
  Finished, too_long_error, finish_builder, finish_data, finish_utxos, finish_fee_bump, finish_on,
  configure_fee_bump, configure_rest, configure_last, try_some, finish_rest,
}
use bdk_wasm.TxBuilder.Finish.Steps.{
  finish_rest_returned, finish_rest_panicked, finish_on_normal, finish_on_bump, finish_on_missing,
  finish_utxos_empty, finish_utxos_known, finish_utxos_unknown, finish_fee_bump_accepted,
  finish_fee_bump_refused,
}
use bdk_wasm.TxBuilder.Finish.Refusals.{finish_data_long, finish_data_short}

-- The codes of the two sections that `finish` draws on.
abbrev pub IsBuildingCode : {T : BdkTypes} → BdkError T → Type 0
IsBuildingCode e = discriminant e.code < 23

-- Data of more than 80 bytes.
abbrev pub IsLong : Option (List ℕ) → Type 0
IsLong d = (bytes : List ℕ) × (d ≡ some bytes) × (80 < length bytes)

abbrev HasCode : {T : BdkTypes} → Option (List ℕ) → BdkError T → Type 0
HasCode d e = IsBuildingCode e ⊎ (e.code ≡ BdkErrorCode.unexpected) × IsLong d

module _ {T : BdkTypes} (H : Host T) (L : BuilderLib T) where
  open L use {Wallet, Builder}

  abbrev Fails : Finished H L → BdkError T → Type 0
  Fails f e = f.0 ≡ returned (err e)

  builder_codes : (x : Builder) (e : BdkError T) → Fails (finish_builder H L x) e → IsBuildingCode e
  unfolding finish_builder
  builder_codes x e h = elim (Result-cases (L.finish x).0) [
    | inl (p, q) ↦ ground arith
    | inr (u, q) ↦ ground (arith, create_tx-IsTransactionCode H u)
  ]

  fee_bump_codes :
      (b : TxBuilder T) (t : T.Txid) (w : Wallet) (e : BdkError T)
      → Fails (finish_fee_bump H L b t w) e
      → IsBuildingCode e
  unfolding discriminant
  fee_bump_codes b t w e h = elim (Result-cases (L.build_fee_bump w t)) [
    | inl (x, q) ↦
        builder_codes (configure_fee_bump L b x) e
          (rw (finish_fee_bump_accepted H L b t w x q) at h)
    | inr ((u, v), q) ↦
        let same : returned (err (from_build_fee_bump_error H u)) ≡ returned (err e) =
          rw (finish_fee_bump_refused H L b t w v u q) at h in
        ground (arith, fee_bump-IsFeeBumpCode H u)
  ]

module _ {T : BdkTypes} (H : Host T) (L : BuilderLib T) (laws : IsLawful L) where
  open L use {Wallet, Builder}

  data_codes :
      (d : Option (List ℕ)) (x : Builder) (e : BdkError T)
      → Fails H L (finish_data H L d x) e
      → HasCode d e
  unfolding finish_data
  data_codes none x e h = inl (builder_codes H L x e h)
  data_codes (some bytes) x e h = elim (Bool-cases (leb (length bytes) 80)) [
    | inl short ↦
        let (d, _, f) = finish_data_short H L laws bytes x (ground arith) in
        inl (builder_codes H L (L.add_data d x) e (sym (ap (λ g. g.0) f) ∙ h))
    | inr long ↦
        let f = finish_data_long H L bytes x (ground arith) in
        let same : returned (err (too_long_error H L bytes)) ≡ returned (err e) =
          sym (ap (λ g. g.0) f) ∙ h in
        inr (ground arith, (bytes, refl, ground arith))
  ]

  rest_codes :
      (b : TxBuilder T) (x : Builder) (e : BdkError T)
      → Fails H L (finish_rest H L b x) e
      → HasCode b.data_bytes e
  rest_codes b x e h =
      elim (Outcome-cases (try_some b.current_height L.current_height (configure_rest L b x))) [
        | inl (z, taken) ↦
            data_codes b.data_bytes (configure_last L b z) e
              (rw (finish_rest_returned H L b x z taken) at h)
        | inr (m, q) ↦
            let stopped : panicked m ≡ returned (err e) =
              rw (finish_rest_panicked H L b x m q) at h in
            absurd (cc)
      ]

  utxos_codes :
      (b : TxBuilder T) (x : Builder) (e : BdkError T)
      → Fails H L (finish_utxos H L b x) e
      → HasCode b.data_bytes e
  unfolding from_add_utxo_error discriminant
  utxos_codes b x e h = elim (Bool-cases (is_empty b.utxos)) [
    | inl empty ↦ rest_codes b x e (rw (finish_utxos_empty H L b x empty) at h)
    | inr some_utxos ↦ elim (Option-cases (L.add_utxos (map into_inner b.utxos) x).0) [
      | inl known ↦
          rest_codes b (L.add_utxos (map into_inner b.utxos) x).1 e
            (rw (finish_utxos_known H L b x some_utxos known) at h)
      | inr (u, unknown) ↦
          let same : returned (err (from_add_utxo_error H u)) ≡ returned (err e) =
            rw (finish_utxos_unknown H L b x u some_utxos unknown) at h in
          inl (ground arith)
    ]
  ]

  -- For a lawful bdk_wallet, every error of `finish` has a code of the transaction or the fee-bump
  -- section, except that a builder that is no fee bump and holds data of more than 80 bytes may
  -- report `Unexpected`.
  pub finish_on_codes :
      (b : TxBuilder T) (w : Wallet) (e : BdkError T)
      → (finish_on H L b w).0 ≡ returned (err e)
      → IsBuildingCode e
        ⊎ (e.code ≡ BdkErrorCode.unexpected) × (b.is_fee_bump ≡ false) × IsLong b.data_bytes
  finish_on_codes b w e h = elim (Bool-cases b.is_fee_bump) [
    | inr normal ↦ elim (utxos_codes b _ e (rw (finish_on_normal H L b w normal) at h)) [
      | inl building ↦ inl building
      | inr (code, long) ↦ inr (code, normal, long)
    ]
    | inl bump ↦ elim (Option-cases b.fee_bump_txid) [
      | inl missing ↦ absurd (cc (ap (λ d. d.0) (finish_on_missing H L b w bump missing)))
      | inr (t, given) ↦
          inl (fee_bump_codes H L b t w e (rw (finish_on_bump H L b w t bump given) at h))
    ]
  ]
