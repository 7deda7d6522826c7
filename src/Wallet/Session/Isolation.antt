-- ===== src/Wallet/Session/Isolation.antt =====
-- The wallets of a session do not influence each other.
use bdk_wasm.Base.{
  ℕ, ◌≡◌, refl, sym, ap, ◌∙◌, inl, inr, true, All, List, [], ◌∷◌, Outcome, returned, panicked, ◌==◌,
  if◌then◌else◌, Bool-cases, arith,
}
use bdk_wasm.Base.RefCell.{Borrow, Heap}
use bdk_wasm.Bdk.Opaque.{BdkTypes}
use bdk_wasm.Bdk.Builder.{BuilderLib}
use bdk_wasm.Bdk.Wallet.{WalletLib}
use bdk_wasm.Types.Error.{Host}
use bdk_wasm.Wallet.Session.{Call, ReturnOf, Log, entered}
use bdk_wasm.Wallet.Session.Perform.{session}
use bdk_wasm.Wallet.Session.Plain.{plain, plain_session}
use bdk_wasm.Wallet.Session.Laws.{plain_step}
use bdk_wasm.Wallet.Session.Panics.{IsOwn, plain_stops, session_follows}
use bdk_wasm.Base.Results.{Outcome-cases}

-- The calls on one wallet, and the entries of a log for it.
abbrev pub entries_on : {A : Type 0} → ℕ → List (ℕ × A) → List (ℕ × A)
entries_on h [] = []
entries_on h ((i, a) ∷ rest) = if i == h then (i, a) ∷ entries_on h rest else entries_on h rest

abbrev pub log_on :
    {T : BdkTypes} {L : BuilderLib T} {V : WalletLib L} → ℕ → Outcome (Log V) → Outcome (Log V)
log_on h (returned log) = returned (entries_on h log)
log_on h (panicked message) = panicked message

module _ {T : BdkTypes} {L : BuilderLib T} {V : WalletLib L} (h : ℕ) where
  log_on-entered :
      (i : ℕ) (a : (c : Call V) × ReturnOf c) (r : Outcome (Log V))
      → log_on h (entered (i, a) r) ≡ (if i == h then entered (i, a) (log_on h r) else log_on h r)
  log_on-entered i a (returned log) = ground arith
  log_on-entered i a (panicked message) = ground arith

entered_returned :
    {T : BdkTypes} {L : BuilderLib T} {V : WalletLib L} (entry : ℕ × ((c : Call V) × ReturnOf c))
    (r : Outcome (Log V)) (log : Log V)
    → entered entry r ≡ returned log
    → (rest : Log V) × (r ≡ returned rest)
entered_returned entry (returned rest) log e = (rest, refl)
entered_returned entry (panicked message) log e = absurd (cc)

module _ {T : BdkTypes} (H : Host T) {L : BuilderLib T} (V : WalletLib L) (h : ℕ) where
  entries_on-IsOwn :
      (calls : List (ℕ × Call V))
      → All (IsOwn {V = V}) calls
      → All (IsOwn {V = V}) (entries_on h calls)
  entries_on-IsOwn [] own = tt
  entries_on-IsOwn ((i, c) ∷ calls) (own, owns) = elim (Bool-cases (i == h)) [
    | inl e ↦ rw e (own, entries_on-IsOwn calls owns)
    | inr e ↦ rw e (entries_on-IsOwn calls owns)
  ]

  -- The wallets after one call.
  abbrev stepped : ℕ → Call V → (ℕ → L.Wallet) → ℕ → L.Wallet
  stepped i c ws j = if j == i then (plain H c (ws i)).1 else ws j

  stepped_same :
      (i : ℕ) (c : Call V) (ws vs : ℕ → L.Wallet)
      → (i == h) ≡ true
      → ws h ≡ vs h
      → (ws i ≡ vs i) × (stepped i c ws h ≡ stepped i c vs h)
  stepped_same i c ws vs here e =
      let p : i ≡ h = ground arith in let q : ws i ≡ vs i = rw p e in (q, rw (q, e))

  -- On wallets without cells; `ws` and `vs` agree on the wallet behind `h`.
  plain_isolates :
      (calls : List (ℕ × Call V)) (ws vs : ℕ → L.Wallet) (log : Log V)
      → (plain_session H calls ws).0 ≡ returned log
      → ws h ≡ vs h
      → let (r, ends) = plain_session H calls ws in
        let (s, alone) = plain_session H (entries_on h calls) vs in
        (log_on h r ≡ s) × (ends h ≡ alone h)
  plain_isolates [] ws vs log all e = (refl, e)
  plain_isolates ((i, c) ∷ calls) ws vs log all e = elim (Outcome-cases (plain H c (ws i)).0) [
    | inr (m, stops) ↦
        let stopped = ap (λ o. o.0) (plain_stops H V i c calls ws m stops) in absurd (cc)
    | inl (a, ra) ↦
        let after = stepped i c ws in
        let first = ap (λ o. o.0) (plain_step H V i c calls ws a ra) in
        let (rest, more) =
          entered_returned (i, (c, a)) (plain_session H calls after).0 log (sym first ∙ all) in
        elim (Bool-cases (i == h)) [
          | inl here ↦
              let (same, e') = stepped_same i c ws vs here e in
              let rb : (plain H c (vs i)).0 ≡ returned a =
                ap (λ w. (plain H c w).0) (sym same) ∙ ra in
              let (logs, ends) = plain_isolates calls after (stepped i c vs) rest more e' in
              rw
                (
                  here,
                  plain_step H V i c calls ws a ra,
                  plain_step H V i c (entries_on h calls) vs a rb,
                  log_on-entered,
                  here,
                )
                (ap (entered (i, (c, a))) logs, ends)
          | inr there ↦
              rw (there, plain_step H V i c calls ws a ra, log_on-entered, there)
                (plain_isolates calls after vs rest more (ground (arith, e)))
        ]
  ]

  -- In a session on free wallets that runs to its end, in which the builders that are finished belong
  -- to the wallet they are finished for, each wallet is isolated: what the calls on it return, and
  -- what they make of it, is what the same calls return and make of it in a session of their own,
  -- without the calls on the other wallets, wherever these stand in between.
  pub session_isolates :
      (calls : List (ℕ × Call V)) (heap : Heap L.Wallet) (log : Log V)
      → All (IsOwn {V = V}) calls
      → ((i : ℕ) → (heap i).state ≡ Borrow.unused)
      → (session H V calls heap).0 ≡ returned log
      → let (r, after) = session H V calls heap in
        let (s, alone) = session H V (entries_on h calls) heap in
        (log_on h r ≡ s) × ((after h).value ≡ (alone h).value)
  session_isolates calls heap log own free ended =
      let ws : ℕ → L.Wallet = λ i. (heap i).value in
      let few = entries_on h calls in
      let (all_same, all_values, _) = session_follows H V calls heap own free in
      let (same, values, _) = session_follows H V few heap (entries_on-IsOwn calls own) free in
      let (logs, ends) = plain_isolates calls ws ws log (sym all_same ∙ ended) refl in
      (ap (log_on h) all_same ∙ logs ∙ sym same, all_values h ∙ ends ∙ sym (values h))
