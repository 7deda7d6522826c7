-- ===== src/Wallet/Program/Calm.antt =====
-- The steps of a program on which bdk_wallet does not panic.
use bdk_wasm.Base.{
  String, ℕ, ◌≡◌, refl, subst, ◌∙◌, ◌⊎◌, inl, inr, Bool, true, false, some, Result, Outcome,
  returned, panicked, ltb, if◌then◌else◌, get_elem?, Option-cases,
}
use bdk_wasm.Base.Results.{Outcome-cases}
use bdk_wasm.Base.RefCell.{Heap}
use bdk_wasm.Bdk.Opaque.{BdkTypes}
use bdk_wasm.Bdk.Builder.{BuilderLib, TakesHeights}
use bdk_wasm.Bdk.Wallet.{WalletLib, PeeksIndices}
use bdk_wasm.Types.Error.{BdkError, Host}
use bdk_wasm.Types.Psbt.{Psbt}
use bdk_wasm.TxBuilder.{TxBuilder}
use bdk_wasm.TxBuilder.Finish.{finish_on, finish}
use bdk_wasm.TxBuilder.Finish.Panics.{FitsHeight, HasMode-returns, finish-FinishesOn}
use bdk_wasm.Wallet.Session.{Query, Call, AnswerOf}
use bdk_wasm.Wallet.Session.Perform.{ask}
use bdk_wasm.Wallet.Session.Plain.{answer}
use bdk_wasm.Wallet.Session.Steps.{IsProper, ask_panics, answer_returns}
use bdk_wasm.Wallet.Program.{Program, Op, remove, resume, advance}
use bdk_wasm.Wallet.Program.Invariant.{Inv}
use bdk_wasm.Wallet.Program.Frame.{get_elem?-All}

-- An address is peeked at an index of BIP32, and a builder is finished with no height that
-- bdk_wallet does not take.
abbrev pub IsAllowed :
    {T : BdkTypes} {L : BuilderLib T} {V : WalletLib L} → Op V → Program L → Type 0
IsAllowed {V = V} (Op.asks h q) p = IsProper V (h, Call.query q)
IsAllowed {T = T} (Op.finishes i) p =
    (b : TxBuilder T) → get_elem? p.builders i ≡ some b → FitsHeight b
IsAllowed _ p = Unit

module _ {T : BdkTypes} (H : Host T) {L : BuilderLib T} (V : WalletLib L) where
  -- bdk_wallet does not panic on the step.
  abbrev pub IsCalm : Op V → Program L → Type 0
  IsCalm (Op.asks h q) p = (a : AnswerOf q) × (answer q (p.heap h).value ≡ returned a)
  IsCalm (Op.finishes i) p =
      (b : TxBuilder T)
      → get_elem? p.builders i ≡ some b
      → (f : Result (BdkError T) (Psbt T)) × ((finish_on H L b (p.heap b.wallet).value).0
          ≡ returned f)
  IsCalm _ p = Unit

  -- The step does nothing, or it panics.
  abbrev pub Stops : Program L → Outcome (Program L) → Type 0
  Stops p r = (r ≡ returned p) ⊎ ((m : String) × (r ≡ panicked m))

  resume_panicked :
      {A : Type 0} (p : Program L) (out : Outcome A × Heap L.Wallet) (m : String)
      → out.0 ≡ panicked m
      → resume p out ≡ panicked m
  resume_panicked p (returned _, heap) m e = cc
  resume_panicked p (panicked _, heap) m e = cc

  asks-IsCalm :
      (p : Program L) (h : ℕ) (q : Query V)
      → Inv L p
      → IsCalm (Op.asks h q) p ⊎ Stops p (advance H V (Op.asks h q) p)
  unfolding advance
  asks-IsCalm p h q v = elim (Outcome-cases (answer q (p.heap h).value)) [
    | inl calm ↦ inl calm
    | inr (m, e) ↦ inr (
        skips (ltb h p.handles)
          (m, resume_panicked p (ask V h q p.heap) m (ask_panics V h q p.heap m e (v.free h))))
  ]
    where
      skips :
          (b : Bool) {r : Outcome (Program L)}
          → (m : String) × (r ≡ panicked m)
          → Stops p (if b then r else returned p)
      skips true stop = inr stop
      skips false stop = inl refl

  finishes-IsCalm :
      (p : Program L) (i : ℕ)
      → Inv L p
      → IsCalm (Op.finishes i) p ⊎ Stops p (advance H V (Op.finishes i) p)
  unfolding advance
  finishes-IsCalm p i v = elim (Option-cases (get_elem? p.builders i)) [
    | inl e ↦ inr (inl (rw (e, advance)))
    | inr (b, e) ↦ elim (Outcome-cases (finish_on H L b (p.heap b.wallet).value).0) [
      | inl (f, ends) ↦ inl (λ c e'.
          let same : b ≡ c = cc in
          subst
            (λ d.
              (g : Result (BdkError T) (Psbt T)) × ((finish_on H L d (p.heap d.wallet).value).0
                ≡ returned g))
            same (f, ends))
      | inr (m, stops) ↦
          let (result, _, _) = finish-FinishesOn H L b.wallet b p.heap refl (v.free b.wallet) in
          inr (
            inr (
              m,
              rw (e, advance)
                  (resume_panicked (record p { builders = remove p.builders i })
                    (finish H L b p.heap) m (result ∙ stops)),
            ))
    ]
  ]

  pub step-IsCalm : (p : Program L) (op : Op V) → Inv L p → IsCalm op p ⊎ Stops p (advance H V op p)
  step-IsCalm p (Op.asks h q) v = asks-IsCalm p h q v
  step-IsCalm p (Op.finishes i) v = finishes-IsCalm p i v
  step-IsCalm p _ v = inl tt

  pub IsAllowed-IsCalm :
      TakesHeights L
      → PeeksIndices V
      → (p : Program L) (op : Op V) → Inv L p
      → IsAllowed op p
      → IsCalm op p
  IsAllowed-IsCalm takes peeks p (Op.asks h q) v proper =
      answer_returns V peeks h q (p.heap h).value proper
  IsAllowed-IsCalm takes peeks p (Op.finishes i) v fits = λ b e.
      let (_, mode) = get_elem?-All _ p.builders i b v.rooted e in
      HasMode-returns H L takes b.wallet b (p.heap b.wallet).value mode (fits b e)
  IsAllowed-IsCalm takes peeks p _ v _ = tt
