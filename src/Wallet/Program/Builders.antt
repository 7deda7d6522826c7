-- ===== src/Wallet/Program/Builders.antt =====
-- Where the builders of a program come from, and what they are finished as.
use bdk_wasm.Base.{
  ℕ, ◌≡◌, refl, sym, ap, subst, ◌∙◌, inl, inr, Bool, true, false, List, [], ◌∷◌, ◌++◌, All, ok, err,
  Outcome, returned, panicked, ltb, if◌then◌else◌, get_elem?, Option-cases,
}
use bdk_wasm.Base.Results.{JsResult, Outcome-cases}
use bdk_wasm.Types.Output.{Txid}
use bdk_wasm.TxBuilder.History.Laws.{build_keeps}
use bdk_wasm.Wallet.Create
use bdk_wasm.Wallet.Session.Perform.{ask, command_on}
use bdk_wasm.Base.RefCell.{Heap}
use bdk_wasm.Bdk.Opaque.{BdkTypes}
use bdk_wasm.Bdk.Builder.{BuilderLib}
use bdk_wasm.Bdk.Wallet.{WalletLib}
use bdk_wasm.Types.Wrapper.{into_inner}
use bdk_wasm.Types.Error.{Host}
use bdk_wasm.TxBuilder.{TxBuilder, builder_new, builder_new_fee_bump}
use bdk_wasm.TxBuilder.Finish.{finish}
use bdk_wasm.TxBuilder.Finish.Panics.{MadeFrom, new-HasMode}
use bdk_wasm.TxBuilder.History.{Setter, apply_setter, build}
use bdk_wasm.Wallet.Change
use bdk_wasm.Wallet.Program.{
  adopt, Program, Op, remove, resume, adopt, hold, hold_result, advance, Reachable,
}
use bdk_wasm.Wallet.Program.Frame.{modify-All, remove-All}

-- The builder was given out by a wallet, and has had setters called on it since.
abbrev pub IsBuilt : {T : BdkTypes} → BuilderLib T → TxBuilder T → Type 0
IsBuilt {T = T} L b =
    (start : TxBuilder T) × (hs : List (Setter T)) × MadeFrom L b.wallet start
    × (b ≡ build hs start)

-- What holds of the program if the step returns.
abbrev Leaves :
    {T : BdkTypes} {L : BuilderLib T} → (Program L → Type 0) → Outcome (Program L) → Type 0
Leaves {L = L} P r = (q : Program L) → r ≡ returned q → P q

module _ {T : BdkTypes} {L : BuilderLib T} (P : Program L → Type 0) where
  returned-Leaves : (p : Program L) → P p → Leaves P (returned p)
  returned-Leaves p holds q e = subst P (cc) holds

  panicked-Leaves : {m : _} → Leaves P (panicked m)
  panicked-Leaves q e = cc

  resume-Leaves :
      {A : Type 0} (p : Program L) (out : Outcome A × Heap L.Wallet)
      → ((heap : Heap L.Wallet) → P (record p { heap = heap }))
      → Leaves P (resume p out)
  resume-Leaves p (returned _, heap) holds q e = returned-Leaves _ (holds heap) q e
  resume-Leaves p (panicked _, heap) holds q e = cc

  adopt-Leaves :
      (p : Program L) (out : JsResult ℕ × Heap L.Wallet)
      → ((heap : Heap L.Wallet) (n : ℕ) → P (record p { heap = heap; handles = n }))
      → P (adopt p out)
  adopt-Leaves p (ok _, heap) holds = holds heap _
  adopt-Leaves p (err _, heap) holds = holds heap _

  if-Leaves :
      (b : Bool) (r : Outcome (Program L)) (p : Program L)
      → Leaves P r
      → P p
      → Leaves P (if b then r else returned p)
  if-Leaves true r p later here = later
  if-Leaves false r p later here = returned-Leaves p here

module _ {T : BdkTypes} (L : BuilderLib T) where
  -- A builder is built when it is new, and after one more setter.
  new-IsBuilt : (h : ℕ) (b : TxBuilder T) → MadeFrom L h b → IsBuilt L b
  unfolding build
  new-IsBuilt h b made =
      (b, [], subst (λ n. MadeFrom L n b) (sym (new-HasMode L h b made).0) made, refl)

  build_last :
      (hs : List (Setter T)) (s : Setter T) (b : TxBuilder T)
      → build (hs ++ (s ∷ [])) b ≡ apply_setter (build hs b) s
  unfolding build
  build_last [] s b = refl
  build_last (g ∷ hs) s b = build_last hs s (apply_setter b g)

  set-IsBuilt : (s : Setter T) (b : TxBuilder T) → IsBuilt L b → IsBuilt L (apply_setter b s)
  unfolding build
  set-IsBuilt s b (start, hs, made, e) = (
    start,
    hs ++ (s ∷ []),
    subst (λ n. MadeFrom L n start) (sym (build_keeps (s ∷ []) b).0) made,
    ap (λ c. apply_setter c s) e ∙ sym (build_last hs s start),
  )

module _ {T : BdkTypes} (H : Host T) {L : BuilderLib T} (V : WalletLib L) where
  abbrev AllBuilt : Program L → Type 0
  AllBuilt p = All (IsBuilt L) p.builders

  build_tx-Leaves :
      (p : Program L) (h : ℕ) → AllBuilt p → Leaves AllBuilt (hold p (Change.build_tx L h))
  unfolding Change.build_tx
  build_tx-Leaves p h all = elim (Outcome-cases (builder_new L h)) [
    | inl (b, e) ↦ rw e (returned-Leaves AllBuilt _ (new-IsBuilt L h b (inl e), all))
    | inr (_, e) ↦ rw e (panicked-Leaves AllBuilt)
  ]

  build_fee_bump-Leaves :
      (p : Program L) (h : ℕ) (txid : Txid T)
      → AllBuilt p
      → Leaves AllBuilt (hold_result p (Change.build_fee_bump L h txid))
  unfolding Change.build_fee_bump
  build_fee_bump-Leaves p h txid all =
      elim (Outcome-cases (builder_new_fee_bump L h (into_inner txid))) [
        | inl (b, e) ↦
            rw (e, Change.build_fee_bump)
              (returned-Leaves AllBuilt _ (new-IsBuilt L h b (inr (into_inner txid, e)), all))
        | inr (_, e) ↦ rw (e, Change.build_fee_bump) (panicked-Leaves AllBuilt)
      ]

  finishes-Leaves :
      (p : Program L) (i : ℕ) → AllBuilt p → Leaves AllBuilt (advance H V (Op.finishes i) p)
  unfolding advance
  finishes-Leaves p i all = elim (Option-cases (get_elem? p.builders i)) [
    | inl e ↦ rw (e, advance) (returned-Leaves AllBuilt p all)
    | inr (b, e) ↦
        rw (e, advance)
          (resume-Leaves AllBuilt (record p { builders = remove p.builders i })
            (finish H L b p.heap) (λ _. remove-All (IsBuilt L) p.builders i all))
  ]

  advance-Leaves : (p : Program L) (op : Op V) → AllBuilt p → Leaves AllBuilt (advance H V op p)
  unfolding advance
  advance-Leaves p (Op.create_single network descriptor) all = returned-Leaves AllBuilt _ (
      adopt-Leaves AllBuilt p (Create.create_single V p.handles network descriptor p.heap)
        (λ _ _. all))
  advance-Leaves p (Op.create network external internal) all = returned-Leaves AllBuilt _ (
      adopt-Leaves AllBuilt p (Create.create V p.handles network external internal p.heap)
        (λ _ _. all))
  advance-Leaves p (Op.create_from_two_path_descriptor network descriptor) all =
      returned-Leaves AllBuilt _ (
        adopt-Leaves AllBuilt p
          (Create.create_from_two_path_descriptor V p.handles network descriptor p.heap)
          (λ _ _. all))
  advance-Leaves p (Op.load changeset external internal) all = returned-Leaves AllBuilt _ (
      adopt-Leaves AllBuilt p (Create.load V p.handles changeset external internal p.heap)
        (λ _ _. all))
  advance-Leaves p (Op.asks h q) all =
      if-Leaves AllBuilt (ltb h p.handles) (resume p (ask V h q p.heap)) p
        (resume-Leaves AllBuilt p (ask V h q p.heap) (λ _. all)) all
  advance-Leaves p (Op.commands h c) all =
      if-Leaves AllBuilt (ltb h p.handles) (resume p (command_on H V h c p.heap)) p
        (resume-Leaves AllBuilt p (command_on H V h c p.heap) (λ _. all)) all
  advance-Leaves p (Op.build_tx h) all =
      if-Leaves AllBuilt (ltb h p.handles) (hold p (Change.build_tx L h)) p
        (build_tx-Leaves p h all) all
  advance-Leaves p (Op.build_fee_bump h txid) all =
      if-Leaves AllBuilt (ltb h p.handles) (hold_result p (Change.build_fee_bump L h txid)) p
        (build_fee_bump-Leaves p h txid all) all
  advance-Leaves p (Op.sets i s) all =
      returned-Leaves AllBuilt _
        (modify-All (IsBuilt L) (λ b. apply_setter b s) (set-IsBuilt L s) p.builders i all)
  advance-Leaves p (Op.finishes i) all = finishes-Leaves p i all

  pub Reachable-AllBuilt : (p : Program L) → Reachable H V p → AllBuilt p
  Reachable-AllBuilt p (Reachable.starts _ _ _ none_held) = rw none_held tt
  Reachable-AllBuilt q (Reachable.goes_on p _ op r e) =
      advance-Leaves p op (Reachable-AllBuilt p r) q e
