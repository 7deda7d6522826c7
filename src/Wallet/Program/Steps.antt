-- ===== src/Wallet/Program/Steps.antt =====
-- The parts of a step: a call on a wallet, a new wallet, a new builder.
use bdk_wasm.Base.{inr, inl, Bool-cases, ap}
use bdk_wasm.Base.{
  ℕ, ◌≡◌, ◌⊎◌, ◌∙◌, ◌<◌, refl, Option, some, List, All, ok, err, Outcome, returned, panicked, ◌==◌,
  if◌then◌else◌, arith,
}
use bdk_wasm.Base.Results.{JsResult}
use bdk_wasm.Base.RefCell.{Heap}
use bdk_wasm.Bdk.Opaque.{BdkTypes}
use bdk_wasm.Bdk.Builder.{BuilderLib}
use bdk_wasm.Bdk.Wallet.{WalletLib}
use bdk_wasm.TxBuilder.{TxBuilder}
use bdk_wasm.TxBuilder.Finish.Panics.{HasMode}
use bdk_wasm.Wallet.Create.{in_new_cell}
use bdk_wasm.Wallet.Session.Steps.{DoesTo, DoesTo-free, DoesTo-value}
use bdk_wasm.Wallet.Program.{Program, Op, resume, adopt, hold}
use bdk_wasm.Wallet.Program.Invariant.{IsRooted, Inv, Goes, HasMode-IsRooted}
use bdk_wasm.Wallet.Program.Frame.{target, All-map}

-- A change of one wallet, if it is one, is a change of the target.
value_kept :
    {W : Type 0} (i h : ℕ) (w : W) (values : ℕ → W) (target : Option ℕ)
    → (w ≡ values h) ⊎ (target ≡ some h)
    → (target ≡ some i) ⊎ ((if i == h then w else values i) ≡ values i)
value_kept i h w values target (inl same) = inr (ground arith)
value_kept i h w values target (inr hit) = elim (Bool-cases (i == h)) [
  | inl here ↦ inl (hit ∙ ap some (ground arith))
  | inr there ↦ inr (rw there)
]

module _ {T : BdkTypes} {L : BuilderLib T} where
  resume_returned :
      {A : Type 0} (p : Program L) (out : Outcome A × Heap L.Wallet) (a : A)
      → out.0 ≡ returned a
      → resume p out ≡ returned (record p { heap = out.1 })
  resume_returned p (returned _, heap) a e = refl
  resume_returned p (panicked _, heap) a e = cc

module _ {T : BdkTypes} {L : BuilderLib T} {V : WalletLib L} where
  -- A constructor's call.
  pub adopt-Goes :
      (op : Op V) (p : Program L) (r : JsResult L.Wallet)
      → target op p ≡ some p.handles
      → Inv L p
      → Goes op p (returned (adopt p (in_new_cell V p.handles r p.heap)))
  adopt-Goes op p (ok w) e v = (
    _,
    refl,
    record {
      free = λ i. ground (arith, v.free i);
      rooted =
          All-map (IsRooted L p.handles) (λ b h. (omega (arith, h.0), h.1)) p.builders v.rooted;
    },
    λ i. ground (arith, value_kept i p.handles w (λ j. (p.heap j).value) (target op p) (inr e)),
  )
  adopt-Goes op p (err _) e v = (p, refl, v, λ _. inr refl)

  -- A builder that is given out.
  pub hold-Goes :
      (op : Op V) (p : Program L) (h : ℕ) (r : Outcome (TxBuilder T)) (b : TxBuilder T)
      → r ≡ returned b
      → h < p.handles
      → HasMode L h b
      → Inv L p
      → Goes op p (hold p r)
  hold-Goes op p h r b e below mode v = rw e (
    _,
    refl,
    record { free = v.free; rooted = (HasMode-IsRooted L p.handles h b below mode, v.rooted) },
    λ _. inr refl,
  )

  -- A call on the wallet behind `h`, which returns; `rest` are the builders that are left.
  pub resume-Goes :
      {A : Type 0} (op : Op V) (p : Program L) (rest : List (TxBuilder T)) (h : ℕ)
      (f : L.Wallet → Outcome A × L.Wallet) (out : Outcome A × Heap L.Wallet) (a : A)
      → DoesTo h f p.heap out
      → (f (p.heap h).value).0 ≡ returned a
      → ((f (p.heap h).value).1 ≡ (p.heap h).value) ⊎ (target op p ≡ some h)
      → All (IsRooted L p.handles) rest
      → Inv L p
      → Goes op p (resume (record p { builders = rest }) out)
  resume-Goes op p rest h f out a done e same all v = (
    record p { builders = rest; heap = out.1 },
    resume_returned (record p { builders = rest }) out a (done.0 ∙ e),
    record { free = DoesTo-free h f p.heap out done v.free; rooted = all },
    λ i.
        rw (DoesTo-value h f p.heap out done i)
          (value_kept i h (f (p.heap h).value).1 (λ j. (p.heap j).value) (target op p) same),
  )
