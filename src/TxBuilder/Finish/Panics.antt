-- ===== src/TxBuilder/Finish/Panics.antt =====
-- When a builder that a wallet gave out can be finished without a panic.
use bdk_wasm.Base.{
  ℕ, ◌<◌, ◌≡◌, refl, ◌∙◌, ◌⊎◌, inl, inr, true, false, Option, none, some, List, map, length,
  is_empty, ltb, Result, Outcome, Bool-cases, Option-cases,
}
use bdk_wasm.Base.Results.{Result-cases}
use bdk_wasm.Types.Wrapper.{into_inner}
use bdk_wasm.Base.{returned, arith, ◌==◌, if◌then◌else◌}
use bdk_wasm.Base.RefCell.{Borrow, Heap}
use bdk_wasm.Base.RefCell.Laws.{with_borrow_mut_runs, with_borrow_mut_releases}
use bdk_wasm.Bdk.Opaque.{BdkTypes}
use bdk_wasm.Bdk.Builder.{BuilderLib, max_height, TakesHeights}
use bdk_wasm.Types.Error.{BdkError, Host}
use bdk_wasm.Types.Psbt.{Psbt}
use bdk_wasm.TxBuilder.{TxBuilder, builder_new, builder_new_fee_bump}
use bdk_wasm.TxBuilder.Finish.{
  Finished, finish_on, finish, finish_builder, finish_data, finish_rest, finish_utxos,
  finish_fee_bump, configure_first, configure_rest, configure_last, try_some,
}
use bdk_wasm.TxBuilder.Finish.Steps.{
  finish_on_normal, finish_on_bump, finish_rest_returned, finish_utxos_empty, finish_utxos_known,
  finish_utxos_unknown, finish_fee_bump_accepted, finish_fee_bump_refused,
}
use bdk_wasm.TxBuilder.History.{Setter, build}
use bdk_wasm.TxBuilder.History.Laws.{build_keeps}

module _ {T : BdkTypes} (L : BuilderLib T) where
  -- `b` was made by `Wallet::build_tx` or `Wallet::build_fee_bump` from the wallet behind `h`.
  abbrev pub MadeFrom : ℕ → TxBuilder T → Type 0
  MadeFrom h b =
      (builder_new L h ≡ returned b) ⊎ ((t : T.Txid) × (builder_new_fee_bump L h t ≡ returned b))

  abbrev pub HasMode : ℕ → TxBuilder T → Type 0
  HasMode h b =
      (b.wallet ≡ h)
      × ((b.is_fee_bump ≡ false)
          ⊎ ((b.is_fee_bump ≡ true) × (t : T.Txid) × (b.fee_bump_txid ≡ some t)))

  pub new-HasMode : (h : ℕ) (b : TxBuilder T) → MadeFrom h b → HasMode h b
  unfolding builder_new builder_new_fee_bump
  new-HasMode h b (inl e) = (ground arith, inl (ground arith))
  new-HasMode h b (inr (t, e)) = (ground arith, inr (ground arith, t, ground arith))

-- A height that was set is one that bdk_wallet takes, or it is not looked at.
abbrev pub FitsHeight : {T : BdkTypes} → TxBuilder T → Type 0
FitsHeight b = (n : ℕ) → b.is_fee_bump ≡ false → b.current_height ≡ some n → n < max_height

module _ {T : BdkTypes} (H : Host T) (L : BuilderLib T) where
  open L use {Wallet, Builder}

  abbrev Returns : Finished H L → Type 0
  Returns f = (r : Result (BdkError T) (Psbt T)) × (f.0 ≡ returned r)

  data-Returns : (d : Option (List ℕ)) (x : Builder) → Returns (finish_data H L d x)
  unfolding finish_data finish_builder
  data-Returns none x = (_, refl)
  data-Returns (some bytes) x = elim (Bool-cases (ltb 80 (length bytes))) [
    | inl long ↦ rw long (_, refl)
    | inr short ↦ elim (Option-cases (L.push_bytes bytes)) [
      | inl full ↦ rw (short, full) (_, refl)
      | inr (d, e) ↦ rw (short, e) (_, refl)
    ]
  ]

  fee_bump-Returns :
      (b : TxBuilder T) (t : T.Txid) (w : Wallet) → Returns (finish_fee_bump H L b t w)
  unfolding finish_builder
  fee_bump-Returns b t w = elim (Result-cases (L.build_fee_bump w t)) [
    | inl (x, e) ↦ rw (finish_fee_bump_accepted H L b t w x e) (_, refl)
    | inr ((u, v), e) ↦ rw (finish_fee_bump_refused H L b t w v u e) (_, refl)
  ]

  -- The height is taken.
  height_taken :
      TakesHeights L
      → (height : Option ℕ) (x : Builder) → ((n : ℕ) → height ≡ some n → n < max_height)
      → (z : Builder) × (try_some height L.current_height x ≡ returned z)
  height_taken takes none x fits = (x, refl)
  height_taken takes (some n) x fits = takes n x (fits n refl)

  rest-Returns :
      TakesHeights L
      → (b : TxBuilder T) (x : Builder) → ((n : ℕ) → b.current_height ≡ some n → n < max_height)
      → Returns (finish_rest H L b x)
  rest-Returns takes b x fits =
      let (z, taken) = height_taken takes b.current_height (configure_rest L b x) fits in
      rw (finish_rest_returned H L b x z taken) (data-Returns b.data_bytes (configure_last L b z))

  utxos-Returns :
      TakesHeights L
      → (b : TxBuilder T) (x : Builder) → ((n : ℕ) → b.current_height ≡ some n → n < max_height)
      → Returns (finish_utxos H L b x)
  utxos-Returns takes b x fits = elim (Bool-cases (is_empty b.utxos)) [
    | inl empty ↦ rw (finish_utxos_empty H L b x empty) (rest-Returns takes b x fits)
    | inr some_utxos ↦ elim (Option-cases (L.add_utxos (map into_inner b.utxos) x).0) [
      | inl known ↦ rw (finish_utxos_known H L b x some_utxos known) (rest-Returns takes b _ fits)
      | inr (u, unknown) ↦ rw (finish_utxos_unknown H L b x u some_utxos unknown) (_, refl)
    ]
  ]

  pub HasMode-returns :
      TakesHeights L
      → (h : ℕ) (b : TxBuilder T) (w : Wallet) → HasMode L h b
      → FitsHeight b
      → (r : Result (BdkError T) (Psbt T)) × ((finish_on H L b w).0 ≡ returned r)
  HasMode-returns takes h b w (_, inl normal) fits =
      rw (finish_on_normal H L b w normal)
        (utxos-Returns takes b (configure_first L b (L.build_tx w)) (λ n. fits n normal))
  HasMode-returns takes h b w (_, inr (bump, t, given)) fits =
      rw (finish_on_bump H L b w t bump given) (fee_bump-Returns b t w)

  pub build-HasMode :
      (h : ℕ) (hs : List (Setter T)) (b : TxBuilder T) → HasMode L h b → HasMode L h (build hs b)
  build-HasMode h hs b m = ground (arith, build_keeps hs b)

  -- What a builder of the wallet behind `h` does to it when it is finished, and to no other.
  abbrev pub FinishesOn :
      ℕ → TxBuilder T → Heap Wallet → Outcome (Result (BdkError T) (Psbt T)) × Heap Wallet → Type 0
  FinishesOn h b heap (r, heap') =
      (r ≡ (finish_on H L b (heap h).value).0)
      × ((heap' h).value ≡ (finish_on H L b (heap h).value).1)
      × ((i : ℕ) → heap' i ≡ (if i == h then heap' h else heap i))

  -- Whether it panics or not, on a free cell.
  pub finish-FinishesOn :
      (h : ℕ) (b : TxBuilder T) (heap : Heap Wallet)
      → b.wallet ≡ h
      → (heap h).state ≡ Borrow.unused
      → FinishesOn h b heap (finish H L b heap)
  unfolding finish
  finish-FinishesOn h b heap own free =
      simp own (with_borrow_mut_runs h heap free (finish_on H L b))

  pub finish_releases :
      (h : ℕ) (b : TxBuilder T) (heap : Heap Wallet)
      → b.wallet ≡ h
      → (heap h).state ≡ Borrow.unused
      → (f : Result (BdkError T) (Psbt T)) → (finish_on H L b (heap h).value).0 ≡ returned f
      → ((finish H L b heap).1 h).state ≡ Borrow.unused
  unfolding finish
  finish_releases h b heap own free f e =
      simp own (with_borrow_mut_releases h heap free (finish_on H L b) e)

  -- A builder that knows its mode can be finished.
  pub HasMode-finishes :
      TakesHeights L
      → (h : ℕ) (b : TxBuilder T) (heap : Heap Wallet) → HasMode L h b
      → FitsHeight b
      → (heap h).state ≡ Borrow.unused
      → let (r, heap') = finish H L b heap in
        ((f : Result (BdkError T) (Psbt T)) × (r ≡ returned f))
        × (r ≡ (finish_on H L b (heap h).value).0)
        × ((heap' h).value ≡ (finish_on H L b (heap h).value).1)
        × ((heap' h).state ≡ Borrow.unused)
        × ((i : ℕ) → heap' i ≡ (if i == h then heap' h else heap i))
  HasMode-finishes takes h b heap m fits free =
      let (f, e) = HasMode-returns takes h b (heap h).value m fits in
      let (result, value, others) = finish-FinishesOn h b heap m.0 free in
      ((f, result ∙ e), result, value, finish_releases h b heap m.0 free f e, others)

  -- A builder that was made from a wallet, whatever setters were called on it since, can always be
  -- finished if the wallet's cell is not borrowed, unless it is for a new transaction and a height of
  -- 500000000 or more was set on it last, where bdk_wallet takes all heights below: `finish` neither
  -- panics on the missing transaction of a fee bump nor on the borrow. It runs on the wallet as it is
  -- in its cell at that moment, stores the wallet that this leaves, frees the cell, and touches no
  -- other wallet.
  pub finish_returns :
      TakesHeights L
      → (h : ℕ) (start : TxBuilder T) (hs : List (Setter T)) (heap : Heap Wallet)
      → MadeFrom L h start
      → FitsHeight (build hs start)
      → (heap h).state ≡ Borrow.unused
      → let b = build hs start in
        let (r, heap') = finish H L b heap in
        ((f : Result (BdkError T) (Psbt T)) × (r ≡ returned f))
        × (r ≡ (finish_on H L b (heap h).value).0)
        × ((heap' h).value ≡ (finish_on H L b (heap h).value).1)
        × ((heap' h).state ≡ Borrow.unused)
        × ((i : ℕ) → heap' i ≡ (if i == h then heap' h else heap i))
  finish_returns takes h start hs heap made =
      HasMode-finishes takes h (build hs start) heap
        (build-HasMode h hs start (new-HasMode L h start made))
