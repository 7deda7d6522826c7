-- ===== src/Wallet/Session/Panics.antt =====
-- Sessions in which bdk_wallet may panic.
use bdk_wasm.Base.{
  ℕ, ◌≡◌, refl, ap, fun_ext, sym, ◌∙◌, ◌⊎◌, inl, inr, String, All, List, [], ◌∷◌, Outcome, returned,
  panicked, ◌==◌, if◌then◌else◌, arith,
}
use bdk_wasm.Base.Results.{Outcome-cases}
use bdk_wasm.Base.RefCell.{Borrow, Heap, with_borrow}
use bdk_wasm.Bdk.Opaque.{BdkTypes}
use bdk_wasm.Bdk.Builder.{BuilderLib}
use bdk_wasm.Bdk.Wallet.{WalletLib}
use bdk_wasm.Types.Error.{Host}
use bdk_wasm.TxBuilder.Finish.{finish}
use bdk_wasm.TxBuilder.Finish.Panics.{finish-FinishesOn, finish_releases}
use bdk_wasm.TxBuilder.History.{build}
use bdk_wasm.TxBuilder.History.Laws.{build_keeps}
use bdk_wasm.Wallet.Read
use bdk_wasm.Wallet.Session.{Query, Call, ReturnOf, Log, entered}
use bdk_wasm.Wallet.Session.Perform.{ask, perform, session}
use bdk_wasm.Wallet.Session.Plain.{answer, plain, plain_session}
use bdk_wasm.Wallet.Session.Steps.{
  DoesTo, DoesTo-free, DoesTo-value, ask-DoesTo, ask_panics, command-DoesTo,
}
use bdk_wasm.Wallet.Session.Laws.{session_step, plain_step}

-- A builder that is finished belongs to the wallet that the call is addressed to.
abbrev pub IsOwn : {T : BdkTypes} {L : BuilderLib T} {V : WalletLib L} → ℕ × Call V → Type 0
IsOwn (h, Call.finish_of start _) = start.wallet ≡ h
IsOwn (_, _) = Unit

-- The call gave what `f` gives on the wallet in the cell, left what `f` leaves there and the others
-- as they were, and freed the cell if it returned.
abbrev Follows : {W A : Type 0} → ℕ → (W → Outcome A × W) → Heap W → Outcome A × Heap W → Type 0
Follows {A = A} h f heap (r, after) =
    (r ≡ (f (heap h).value).0)
    × ((i : ℕ) → (after i).value ≡ (if i == h then (f (heap h).value).1 else (heap i).value))
    × ((a : A) → (f (heap h).value).0 ≡ returned a → (i : ℕ) → (after i).state ≡ Borrow.unused)

module _ {W A : Type 0} (h : ℕ) (f : W → Outcome A × W) (heap : Heap W)
    (out : Outcome A × Heap W) where
  DoesTo-Follows :
      DoesTo h f heap out → ((i : ℕ) → (heap i).state ≡ Borrow.unused) → Follows h f heap out
  DoesTo-Follows done free =
      (done.0, DoesTo-value h f heap out done, λ _ _. DoesTo-free h f heap out done free)

module _ {T : BdkTypes} {L : BuilderLib T} (V : WalletLib L) where
  ask_keeps :
      (h : ℕ) (q : Query V) (heap : Heap L.Wallet) (m : String)
      → answer q (heap h).value ≡ panicked m
      → (heap h).state ≡ Borrow.unused
      → (i : ℕ) → ((ask V h q heap).1 i).value ≡ (heap i).value
  unfolding Read.peek_address with_borrow
  ask_keeps h (Query.peek_address _ _) heap m e free i = ground (arith, e, free)
  ask_keeps h _ heap m e free i = absurd (cc)

  ask-Follows :
      (h : ℕ) (q : Query V) (heap : Heap L.Wallet)
      → ((i : ℕ) → (heap i).state ≡ Borrow.unused)
      → Follows h (λ w. (answer q w, w)) heap (ask V h q heap)
  ask-Follows h q heap free = elim (Outcome-cases (answer q (heap h).value)) [
    | inl (a, e) ↦
        DoesTo-Follows h (λ w. (answer q w, w)) heap (ask V h q heap)
          (ask-DoesTo V h q heap a e (free h)) free
    | inr (m, e) ↦ (
      ask_panics V h q heap m e (free h) ∙ sym e,
      λ i. ask_keeps h q heap m e (free h) i ∙ ground arith,
      λ a e'. absurd (cc),
    )
  ]

entered_stops :
    {T : BdkTypes} {L : BuilderLib T} {V : WalletLib L} {A : Type 0}
    (entry : ℕ × ((c : Call V) × ReturnOf c)) {r : Outcome (Log V)}
    → ((m : String) × (r ≡ panicked m)) ⊎ A
    → ((m : String) × (entered entry r ≡ panicked m)) ⊎ A
entered_stops entry (inl (m, e)) = inl (m, rw e)
entered_stops entry (inr a) = inr a

module _ {T : BdkTypes} (H : Host T) {L : BuilderLib T} (V : WalletLib L) where
  perform-Follows :
      (h : ℕ) (c : Call V) (heap : Heap L.Wallet)
      → IsOwn {V = V} (h, c)
      → ((i : ℕ) → (heap i).state ≡ Borrow.unused)
      → Follows h (plain H c) heap (perform H V h c heap)
  perform-Follows h (Call.query q) heap _ free = ask-Follows V h q heap free
  perform-Follows h (Call.command c) heap _ free =
      DoesTo-Follows h (plain H (Call.command c)) heap (perform H V h (Call.command c) heap)
        (command-DoesTo H V h c heap (free h)) free
  perform-Follows h (Call.finish_of start setters) heap own free =
      let c : Call V = Call.finish_of start setters in
      let b = build setters start in
      let mine : b.wallet ≡ h = (build_keeps setters start).0 ∙ own in
      let (result, value, others) = finish-FinishesOn H L h b heap mine (free h) in
      (
        result,
        λ i. rw (others i) (ground (arith, value)),
        λ f e.
            DoesTo-free h (plain H c) heap (finish H L b heap)
              (result, value, finish_releases H L h b heap mine (free h) f e, others) free,
      )

  session_stops :
      (h : ℕ) (c : Call V) (calls : List (ℕ × Call V)) (heap : Heap L.Wallet) (m : String)
      → (perform H V h c heap).0 ≡ panicked m
      → session H V ((h, c) ∷ calls) heap ≡ (panicked m, (perform H V h c heap).1)
  session_stops h c calls heap m e = rw (e, session)

  pub plain_stops :
      (h : ℕ) (c : Call V) (calls : List (ℕ × Call V)) (ws : ℕ → L.Wallet) (m : String)
      → (plain H c (ws h)).0 ≡ panicked m
      → plain_session H ((h, c) ∷ calls) ws
        ≡ (panicked m, λ i. if i == h then (plain H c (ws h)).1 else ws i)
  plain_stops h c calls ws m e = rw (e, plain_session)

  -- A session on wallets whose cells are free, in which the builders that are finished belong to the
  -- wallet they are finished for, does what it does on plain wallets without cells, whatever numbers
  -- are passed to bdk_wallet: it ends with the same log or the same panic, it leaves the same
  -- wallets, and if it does not panic all cells end free.
  pub session_follows :
      (calls : List (ℕ × Call V)) (heap : Heap L.Wallet)
      → All (IsOwn {V = V}) calls
      → ((i : ℕ) → (heap i).state ≡ Borrow.unused)
      → let (r, after) = session H V calls heap in
        let (s, ends) = plain_session H calls (λ i. (heap i).value) in
        (r ≡ s)
        × ((i : ℕ) → (after i).value ≡ ends i)
        × (((m : String) × (r ≡ panicked m)) ⊎ ((i : ℕ) → (after i).state ≡ Borrow.unused))
  session_follows [] heap _ free = (refl, λ _. refl, inr free)
  session_follows ((h, c) ∷ calls) heap (own, owns) free =
      let ws : ℕ → L.Wallet = λ i. (heap i).value in
      let out = perform H V h c heap in
      let (result, values, frees) = perform-Follows h c heap own free in
      elim (Outcome-cases (plain H c (heap h).value).0) [
        | inl (a, e) ↦
            let p = fun_ext values in
            let (same, ends, idle) = session_follows calls out.1 owns (frees a e) in
            let step : Outcome (Log V) → Outcome (Log V) = entered (h, (c, a)) in
            rw (session_step H V h c calls heap a (result ∙ e), plain_step H V h c calls ws a e)
              (
                ap step (same ∙ ap (λ vs. (plain_session H calls vs).0) p),
                λ i. ends i ∙ ap (λ vs. (plain_session H calls vs).1 i) p,
                entered_stops (h, (c, a)) idle,
              )
        | inr (m, e) ↦
            rw (session_stops h c calls heap m (result ∙ e), plain_stops h c calls ws m e)
              (refl, values, inl (m, refl))
      ]
