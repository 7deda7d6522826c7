-- ===== src/TxBuilder/Finish/Refusals.antt =====
-- When `finish` refuses, and what becomes of the wallet.
use bdk_wasm.Base.{
  String, panicked, ℕ, ◌≤◌, ◌<◌, ◌≡◌, refl, ◌≢◌, ◌∙◌, ◌⊎◌, inl, inr, false, Option, none, some,
}
use bdk_wasm.Base.{List, [], ok, err, returned, arith, length, is_empty, lt→ltb, leb}
use bdk_wasm.Base.Results.{Result-cases, Outcome-cases, map_ok, map_err}
use bdk_wasm.Base.{ap, Bool-cases, Option-cases, map}
use bdk_wasm.Bdk.Opaque.{BdkTypes}
use bdk_wasm.Bdk.Errors.{AddUtxoError}
use bdk_wasm.Bdk.Builder.{BuilderLib, IsLawful}
use bdk_wasm.Types.Wrapper.{wrap, into_inner}
use bdk_wasm.Types.Error.{Host}
use bdk_wasm.Types.Psbt.{Psbt}
use bdk_wasm.TxBuilder.{TxBuilder}
use bdk_wasm.TxBuilder.Errors.{from_add_utxo_error, from_create_tx_error}
use bdk_wasm.TxBuilder.Finish.{
  Finished, too_long_error, finish_builder, finish_data, finish_utxos, finish_fee_bump, finish_on,
  configure_fee_bump, configure_first, configure_rest, configure_last, try_some, finish_rest,
}
use bdk_wasm.TxBuilder.Finish.Steps.{
  finish_rest_returned, finish_rest_panicked, finish_on_normal, finish_on_bump, finish_on_missing,
  finish_utxos_empty, finish_utxos_known, finish_utxos_unknown, finish_fee_bump_accepted,
  finish_fee_bump_refused,
}
use bdk_wasm.TxBuilder.Finish.Keeping.{
  keeps_first, keeps_fee_bump, keeps_rest, keeps_height, keeps_last, height_panics,
}

widen : {A B C : Type 0} → A ⊎ B → A ⊎ (B ⊎ C)
widen (inl a) = inl a
widen (inr b) = inr (inl b)

module _ {T : BdkTypes} (H : Host T) (L : BuilderLib T) where
  open L use {Wallet, Builder, wallet_of}

  pub finish_data_long :
      (bytes : List ℕ) (x : Builder)
      → 80 < length bytes
      → finish_data H L (some bytes) x ≡ (returned (err (too_long_error H L bytes)), wallet_of x)
  unfolding finish_data
  finish_data_long bytes x h = rw (lt→ltb _ _ h)

  -- Data of at most 80 bytes always fits a push.
  pub finish_data_short :
      IsLawful L
      → (bytes : List ℕ) (x : Builder) → length bytes ≤ 80
      → (d : L.PushBytes) × (L.push_bytes bytes ≡ some d)
        × (finish_data H L (some bytes) x ≡ finish_builder H L (L.add_data d x))
  unfolding finish_data
  finish_data_short laws bytes x h = elim (Option-cases (L.push_bytes bytes)) [
    | inl full ↦ absurd (laws.push_bytes_fits bytes (omega arith) full)
    | inr (d, e) ↦ (d, e, ground arith)
  ]

module _ {T : BdkTypes} (H : Host T) (L : BuilderLib T) (laws : IsLawful L) where
  open L use {Wallet, Builder, wallet_of}

  -- A refusal or a panic that leaves the wallet `w`, or what bdk_wallet's `finish` did and said, wrapped
  -- or converted, of a builder that borrowed `w`.
  abbrev pub CallEndsWell : Wallet → Finished H L → Type 0
  CallEndsWell w c =
      ((c.1 ≡ w) × ((p : Psbt T) → c.0 ≢ returned (ok p)))
      ⊎ ((x : Builder) × (wallet_of x ≡ w)
          × (c ≡ (
            returned (map_ok wrap (map_err (from_create_tx_error H) (L.finish x).0)),
            (L.finish x).1,
          )))

  finish_data_ends :
      (d : Option (List ℕ)) (x : Builder) (w : Wallet)
      → wallet_of x ≡ w
      → CallEndsWell w (finish_data H L d x)
  unfolding finish_data finish_builder
  finish_data_ends none x w e = inr (x, e, refl)
  finish_data_ends (some bytes) x w e = elim (Bool-cases (leb (length bytes) 80)) [
    | inl short ↦
        let (d, _, f) = finish_data_short H L laws bytes x (ground arith) in
        inr (L.add_data d x, laws.add_data_wallet d x ∙ e, f)
    | inr long ↦ rw (finish_data_long H L bytes x (ground arith)) (inl (e, λ p q. cc))
  ]

  finish_rest_ends :
      (b : TxBuilder T) (x : Builder) (w : Wallet)
      → wallet_of x ≡ w
      → CallEndsWell w (finish_rest H L b x)
  finish_rest_ends b x w e =
      let y = configure_rest L b x in
      let same = keeps_rest L laws b x ∙ e in
      elim (Outcome-cases (try_some b.current_height L.current_height y)) [
        | inl (z, taken) ↦ rw (finish_rest_returned H L b x z taken) (
            finish_data_ends b.data_bytes _ w
              (keeps_last L laws b z ∙ keeps_height L laws b.current_height y z taken ∙ same))
        | inr (m, q) ↦ rw (finish_rest_panicked H L b x m q) (inl (same, λ p r. cc))
      ]

  finish_utxos_ends :
      (b : TxBuilder T) (x : Builder) (w : Wallet)
      → wallet_of x ≡ w
      → CallEndsWell w (finish_utxos H L b x)
  finish_utxos_ends b x w e = elim (Bool-cases (is_empty b.utxos)) [
    | inl empty ↦ rw (finish_utxos_empty H L b x empty) (finish_rest_ends b x w e)
    | inr some_utxos ↦ elim (Option-cases (L.add_utxos (map into_inner b.utxos) x).0) [
      | inl known ↦
          rw (finish_utxos_known H L b x some_utxos known)
            (finish_rest_ends b _ w (laws.add_utxos_wallet _ x ∙ e))
      | inr (u, unknown) ↦
          rw (finish_utxos_unknown H L b x u some_utxos unknown)
            (inl (laws.add_utxos_wallet _ x ∙ e, λ p q. cc))
    ]
  ]

  finish_fee_bump_ends :
      (b : TxBuilder T) (t : T.Txid) (w : Wallet) → CallEndsWell w (finish_fee_bump H L b t w)
  unfolding finish_builder
  finish_fee_bump_ends b t w = elim (Result-cases (L.build_fee_bump w t)) [
    | inl (x, e) ↦ rw (finish_fee_bump_accepted H L b t w x e) (
        inr (
          configure_fee_bump L b x,
          keeps_fee_bump L laws b x ∙ laws.accepted_wallet w t x e,
          refl,
        ))
    | inr ((u, v), e) ↦
        rw (finish_fee_bump_refused H L b t w v u e)
          (inl (laws.refused_wallet w v t u e, λ p q. cc))
  ]

  -- For a lawful bdk_wallet, a call of `finish` in either mode changes the wallet only through
  -- bdk_wallet's own `finish`, called on a builder that borrows the wallet as it was, and then
  -- reports just what that call reported, wrapped or converted. In every other case it yields no transaction and leaves
  -- the wallet as it was.
  pub finish_on_ends : (b : TxBuilder T) (w : Wallet) → CallEndsWell w (finish_on H L b w)
  finish_on_ends b w = elim (Bool-cases b.is_fee_bump) [
    | inr normal ↦
        rw (finish_on_normal H L b w normal)
          (finish_utxos_ends b _ w (keeps_first L laws b _ ∙ laws.build_tx_wallet w))
    | inl bump ↦ elim (Option-cases b.fee_bump_txid) [
      | inl missing ↦ rw (finish_on_missing H L b w bump missing) (inl (refl, λ p q. cc))
      | inr (t, given) ↦ rw (finish_on_bump H L b w t bump given) (finish_fee_bump_ends b t w)
    ]
  ]

  -- The call ended in a panic of bdk_wallet on the height that was set, with the wallet `w` as it was.
  abbrev pub HeightPanics : TxBuilder T → Wallet → Finished H L → Type 0
  HeightPanics b w c =
      (n : ℕ) × (x : Builder) × (m : String) × (b.current_height ≡ some n)
      × (L.current_height n x ≡ panicked m)
      × (c ≡ (panicked m, w))

  finish_rest_long :
      (b : TxBuilder T) (bytes : List ℕ) (x : Builder) (w : Wallet)
      → b.data_bytes ≡ some bytes
      → 80 < length bytes
      → wallet_of x ≡ w
      → (finish_rest H L b x ≡ (returned (err (too_long_error H L bytes)), w))
        ⊎ HeightPanics b w (finish_rest H L b x)
  finish_rest_long b bytes x w d h e =
      let y = configure_rest L b x in
      let same = keeps_rest L laws b x ∙ e in
      elim (Outcome-cases (try_some b.current_height L.current_height y)) [
        | inl (z, taken) ↦
            let ends =
              keeps_last L laws b z ∙ keeps_height L laws b.current_height y z taken ∙ same in
            inl (
              finish_rest_returned H L b x z taken
              ∙ ap (λ o. finish_data H L o (configure_last L b z)) d
              ∙ finish_data_long H L bytes (configure_last L b z) h
              ∙ ap (λ v. (returned (err (too_long_error H L bytes)), v)) ends)
        | inr (m, q) ↦
            let (n, given, panics) = height_panics L laws b.current_height y m q in
            inr (
              n,
              y,
              m,
              given,
              panics,
              finish_rest_panicked H L b x m q ∙ ap (λ v. (panicked m, v)) same,
            )
      ]

  -- For a lawful bdk_wallet, with data of more than 80 bytes a builder that is no fee bump never
  -- yields a transaction and never touches the wallet: it reports the length, unless there are
  -- outpoints to spend and an error of adding them is reported instead, or bdk_wallet panics on the
  -- height that was set.
  pub finish_on_long_data :
      (b : TxBuilder T) (bytes : List ℕ) (w : Wallet)
      → b.is_fee_bump ≡ false
      → b.data_bytes ≡ some bytes
      → 80 < length bytes
      → (finish_on H L b w ≡ (returned (err (too_long_error H L bytes)), w))
        ⊎ HeightPanics b w (finish_on H L b w)
        ⊎ ((e : AddUtxoError T) × (b.utxos ≢ [])
            × (finish_on H L b w ≡ (returned (err (from_add_utxo_error H e)), w)))
  finish_on_long_data b bytes w normal d h =
      let start = configure_first L b (L.build_tx w) in
      let added = (L.add_utxos (map into_inner b.utxos) start).1 in
      let first = keeps_first L laws b (L.build_tx w) ∙ laws.build_tx_wallet w in
      elim (Bool-cases (is_empty b.utxos)) [
        | inl empty ↦
            rw (finish_on_normal H L b w normal, finish_utxos_empty H L b start empty)
              (widen (finish_rest_long b bytes start w d h first))
        | inr some_utxos ↦ elim (Option-cases (L.add_utxos (map into_inner b.utxos) start).0) [
          | inl known ↦
              rw (finish_on_normal H L b w normal, finish_utxos_known H L b start some_utxos known)
                (widen (
                  finish_rest_long b bytes added w d h
                    (laws.add_utxos_wallet (map into_inner b.utxos) start ∙ first)))
          | inr (u, unknown) ↦ inr (
              inr (
                u,
                λ none_given. cc (ap is_empty none_given),
                rw
                    (
                      finish_on_normal H L b w normal,
                      finish_utxos_unknown H L b _ u some_utxos unknown,
                    )
                    (rw (laws.add_utxos_wallet (map into_inner b.utxos) start ∙ first)),
              ))
        ]
      ]
