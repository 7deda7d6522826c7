-- ===== src/Wallet/Session/Laws.antt =====
-- A session of proper calls on free wallets returns, and does what it would on plain values.
use bdk_wasm.Base.{
  ℕ, ◌≡◌, refl, ap, fun_ext, ◌∙◌, All, List, [], ◌∷◌, Outcome, returned, ◌==◌, if◌then◌else◌,
}
use bdk_wasm.Base.RefCell.{Borrow, Heap}
use bdk_wasm.Bdk.Opaque.{BdkTypes}
use bdk_wasm.Bdk.Builder.{BuilderLib, TakesHeights}
use bdk_wasm.Bdk.Wallet.{WalletLib, PeeksIndices}
use bdk_wasm.Types.Error.{Host}
use bdk_wasm.Wallet.Session.{Call, ReturnOf, Log, entered}
use bdk_wasm.Wallet.Session.Perform.{perform, session}
use bdk_wasm.Wallet.Session.Plain.{plain, plain_session}
use bdk_wasm.Wallet.Session.Steps.{
  DoesTo, DoesTo-free, DoesTo-value, IsProper, perform-DoesTo, plain_returns,
}

module _ {T : BdkTypes} (H : Host T) {L : BuilderLib T} (V : WalletLib L) where
  pub session_step :
      (h : ℕ) (c : Call V) (calls : List (ℕ × Call V)) (heap : Heap L.Wallet) (a : ReturnOf c)
      → (perform H V h c heap).0 ≡ returned a
      → session H V ((h, c) ∷ calls) heap ≡ (
        entered (h, (c, a)) (session H V calls (perform H V h c heap).1).0,
        (session H V calls (perform H V h c heap).1).1,
      )
  session_step h c calls heap a e = rw (e, session)

  pub plain_step :
      (h : ℕ) (c : Call V) (calls : List (ℕ × Call V)) (ws : ℕ → L.Wallet) (a : ReturnOf c)
      → (plain H c (ws h)).0 ≡ returned a
      → let after : ℕ → L.Wallet = λ i. if i == h then (plain H c (ws h)).1 else ws i in
        plain_session H ((h, c) ∷ calls) ws
        ≡ (entered (h, (c, a)) (plain_session H calls after).0, (plain_session H calls after).1)
  plain_step h c calls ws a e = rw (e, plain_session)

module _ {T : BdkTypes} (H : Host T) {L : BuilderLib T} (V : WalletLib L) (takes : TakesHeights L)
    (peeks : PeeksIndices V) where
  -- A session on wallets whose cells are free runs to its end without a panic, if the builders that
  -- are finished come from the wallet they are finished for and have no height of 500000000 or more,
  -- the indices of peeked addresses are below 2 ^ 31, and bdk_wallet takes such heights and indices.
  -- Each call returns what it returns on plain wallets without cells, and the wallets end as they do
  -- there, with all cells free.
  pub session_refines :
      (calls : List (ℕ × Call V)) (heap : Heap L.Wallet)
      → All (IsProper V) calls
      → ((i : ℕ) → (heap i).state ≡ Borrow.unused)
      → let (r, after) = session H V calls heap in
        let (s, ends) = plain_session H calls (λ i. (heap i).value) in
        ((log : Log V) × (r ≡ returned log))
        × (r ≡ s)
        × ((i : ℕ) → (after i).state ≡ Borrow.unused)
        × ((i : ℕ) → (after i).value ≡ ends i)
  session_refines [] heap _ free = (([], refl), refl, free, λ _. refl)
  session_refines ((h, c) ∷ calls) heap (own, owns) free =
      let (a, e) = plain_returns H V takes peeks h c (heap h).value own in
      let out = perform H V h c heap in
      let done : DoesTo h (plain H c) heap out =
        perform-DoesTo H V takes peeks h c heap own (free h) in
      let ((log, all), same, idle, values) =
        session_refines calls out.1 owns (DoesTo-free h (plain H c) heap out done free) in
      let p = fun_ext (DoesTo-value h (plain H c) heap out done) in
      let step : Outcome (Log V) → Outcome (Log V) = entered (h, (c, a)) in
      rw
        (
          session_step H V h c calls heap a (done.0 ∙ e),
          plain_step H V h c calls (λ i. (heap i).value) a e,
        )
        (
          ((h, (c, a)) ∷ log, ap step all),
          ap step (same ∙ ap (λ ws. (plain_session H calls ws).0) p),
          idle,
          λ i. values i ∙ ap (λ ws. (plain_session H calls ws).1 i) p,
        )
