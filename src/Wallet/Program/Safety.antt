-- ===== src/Wallet/Program/Safety.antt =====
-- What holds of a program at all times.
use bdk_wasm.Base.{◌⊎◌}
use bdk_wasm.Base.{
  ℕ, ◌≡◌, ltb→lt, Option-cases, refl, subst, Bool, true, false, some, returned, ltb, if◌then◌else◌,
  get_elem?, inl, inr,
}
use bdk_wasm.Bdk.Kinds.{BdkTxOrdering}
use bdk_wasm.Bdk.Opaque.{BdkTypes}
use bdk_wasm.Bdk.Builder.{BuilderLib, TakesHeights}
use bdk_wasm.Bdk.Wallet.{WalletLib, PeeksIndices}
use bdk_wasm.Types.Error.{Host}
use bdk_wasm.TxBuilder.{builder_new}
use bdk_wasm.Types.Wrapper.{into_inner}
use bdk_wasm.Types.Output.{Txid}
use bdk_wasm.TxBuilder.History.{Setter, apply_setter}
use bdk_wasm.TxBuilder.Finish.{finish_on, finish}
use bdk_wasm.TxBuilder.Finish.Panics.{finish-FinishesOn, finish_releases, new-HasMode}
use bdk_wasm.Wallet.Program.Calm.{IsAllowed, IsCalm, step-IsCalm, IsAllowed-IsCalm}
use bdk_wasm.Wallet.Create.{in_new_cell}
use bdk_wasm.Wallet.Change
use bdk_wasm.Wallet.Create
use bdk_wasm.Wallet.Session.{Query, Command}
use bdk_wasm.Wallet.Session.Perform.{ask, command_on}
use bdk_wasm.Wallet.Session.Plain.{answer, change}
use bdk_wasm.Wallet.Session.Steps.{ask-DoesTo, command-DoesTo}
use bdk_wasm.Wallet.Program.{Program, Op, remove, advance, Reachable}
use bdk_wasm.Wallet.Program.Invariant.{
  Inv, Goes, new_made, bump_made, build_fee_bump_returned, set-IsRooted,
}
use bdk_wasm.Wallet.Program.Steps.{adopt-Goes, hold-Goes, resume-Goes}
use bdk_wasm.Wallet.Program.Frame.{target, modify-All, remove-All, get_elem?-All}

if_both {ℓ κ} :
    {A : Type ℓ} (P : A → Type κ) (b : Bool) {x y : A}
    → (b ≡ true → P x)
    → P y
    → P (if b then x else y)
if_both P true f p = f refl
if_both P false f p = p

module _ {T : BdkTypes} (H : Host T) {L : BuilderLib T} (V : WalletLib L)
    (shuffles : L.default_ordering ≡ BdkTxOrdering.shuffle) where
  finishes-Goes :
      (p : Program L) (i : ℕ)
      → IsCalm H V (Op.finishes i) p
      → Inv L p
      → Goes {V = V} (Op.finishes i) p (advance H V (Op.finishes i) p)
  unfolding advance
  finishes-Goes p i calm v = elim (Option-cases (get_elem? p.builders i)) [
    | inl e ↦ rw (e, advance) (p, refl, v, λ _. inr refl)
    | inr (b, e) ↦
        let (_, mode) = get_elem?-All _ p.builders i b v.rooted e in
        let (f, ends) = calm b e in
        let idle = v.free b.wallet in
        let (result, value, others) = finish-FinishesOn H L b.wallet b p.heap refl idle in
        let state = finish_releases H L b.wallet b p.heap refl idle f ends in
        subst (Goes {V = V} (Op.finishes i) p) (rw (e, advance)) (
          resume-Goes {V = V} (Op.finishes i) p (remove p.builders i) b.wallet (finish_on H L b)
            (finish H L b p.heap) f (result, value, state, others) ends (inr (rw e))
            (remove-All _ p.builders i v.rooted) v)
  ]

  asks-Goes :
      (p : Program L) (h : ℕ) (q : Query V)
      → IsCalm H V (Op.asks h q) p
      → Inv L p
      → Goes {V = V} (Op.asks h q) p (advance H V (Op.asks h q) p)
  unfolding advance
  asks-Goes p h q (a, e) v =
      if_both (Goes {V = V} (Op.asks h q) p) (ltb h p.handles)
        (λ _.
          resume-Goes {V = V} (Op.asks h q) p p.builders h (λ w. (answer q w, w)) (ask V h q p.heap)
            a (ask-DoesTo V h q p.heap a e (v.free h)) e (inl refl) v.rooted v)
        (p, refl, v, λ _. inr refl)

  commands-Goes :
      (p : Program L) (h : ℕ) (c : Command V)
      → Inv L p
      → Goes {V = V} (Op.commands h c) p (advance H V (Op.commands h c) p)
  unfolding advance
  commands-Goes p h c v =
      if_both (Goes {V = V} (Op.commands h c) p) (ltb h p.handles)
        (λ _.
          resume-Goes {V = V} (Op.commands h c) p p.builders h
            (λ w. (returned (change H c w).0, (change H c w).1)) (command_on H V h c p.heap)
            (change H c (p.heap h).value).0 (command-DoesTo H V h c p.heap (v.free h)) refl
            (inr refl) v.rooted v)
        (p, refl, v, λ _. inr refl)

  build_tx-Goes :
      (p : Program L) (h : ℕ)
      → Inv L p
      → Goes {V = V} (Op.build_tx h) p (advance H V (Op.build_tx h) p)
  unfolding advance Change.build_tx
  build_tx-Goes p h v =
      if_both (Goes {V = V} (Op.build_tx h) p) (ltb h p.handles)
        (λ below.
          let (b, e) = new_made L shuffles h in
          hold-Goes {V = V} (Op.build_tx h) p h (builder_new L h) b e (ltb→lt h p.handles below)
            (new-HasMode L h b (inl e)) v)
        (p, refl, v, λ _. inr refl)

  build_fee_bump-Goes :
      (p : Program L) (h : ℕ) (txid : Txid T)
      → Inv L p
      → Goes {V = V} (Op.build_fee_bump h txid) p (advance H V (Op.build_fee_bump h txid) p)
  unfolding advance
  build_fee_bump-Goes p h txid v =
      if_both (Goes {V = V} (Op.build_fee_bump h txid) p) (ltb h p.handles)
        (λ below.
          let (b, e) = bump_made L shuffles h (into_inner txid) in
          rw (build_fee_bump_returned L h txid b e) (
            hold-Goes {V = V} (Op.build_fee_bump h txid) p h (returned b) b refl
              (ltb→lt h p.handles below) (new-HasMode L h b (inr (into_inner txid, e))) v))
        (p, refl, v, λ _. inr refl)

  sets-Goes :
      (p : Program L) (i : ℕ) (s : Setter T)
      → Inv L p
      → Goes {V = V} (Op.sets i s) p (advance H V (Op.sets i s) p)
  unfolding advance
  sets-Goes p i s v = (
    _,
    refl,
    record {
      free = v.free;
      rooted =
          modify-All _ (λ b. apply_setter b s) (set-IsRooted H L p.handles s) p.builders i v.rooted;
    },
    λ _. inr refl,
  )

  advance-Goes :
      (p : Program L) (op : Op V) → IsCalm H V op p → Inv L p → Goes op p (advance H V op p)
  unfolding advance Create.create_single Create.create Create.create_from_two_path_descriptor
      Create.load
  advance-Goes p (Op.create_single network descriptor) _ =
      adopt-Goes {V = V} (Op.create_single network descriptor) p _ refl
  advance-Goes p (Op.create network external internal) _ =
      adopt-Goes {V = V} (Op.create network external internal) p _ refl
  advance-Goes p (Op.create_from_two_path_descriptor network descriptor) _ =
      adopt-Goes {V = V} (Op.create_from_two_path_descriptor network descriptor) p _ refl
  advance-Goes p (Op.load changeset external internal) _ =
      adopt-Goes {V = V} (Op.load changeset external internal) p _ refl
  advance-Goes p (Op.asks h q) calm = asks-Goes p h q calm
  advance-Goes p (Op.commands h c) _ = commands-Goes p h c
  advance-Goes p (Op.build_tx h) _ = build_tx-Goes p h
  advance-Goes p (Op.build_fee_bump h txid) _ = build_fee_bump-Goes p h txid
  advance-Goes p (Op.sets i s) _ = sets-Goes p i s
  advance-Goes p (Op.finishes i) calm = finishes-Goes p i calm

  pub Reachable-Inv : (p : Program L) → Reachable H V p → Inv L p
  Reachable-Inv p (Reachable.starts _ free _ none_held) = record {
    free = free;
    rooted = rw none_held tt;
  }
  Reachable-Inv q (Reachable.goes_on p _ op r e) =
      let v = Reachable-Inv p r in
      elim (step-IsCalm H V p op v) [
        | inl calm ↦ let (q', e', w, _) = advance-Goes p op calm v in subst (Inv L) (cc) w
        | inr (inl stays) ↦ subst (Inv L) (cc) v
        | inr (inr (m, stops)) ↦ absurd (cc)
      ]

  -- If bdk_wallet's default ordering is to shuffle, then whatever a program has done so far, with any
  -- number of wallets and builders, its next step returns and does not panic, where bdk_wallet takes
  -- the heights below 500000000 and the indices below 2 ^ 31, and the step peeks at no other index
  -- and finishes no builder of a new transaction with another height. After it no cell is borrowed,
  -- and every builder that is still held belongs to a wallet that was made, and names a transaction
  -- if it is for a fee bump. At most one wallet is changed: the one whose changing method is called,
  -- the one of the builder that is finished, or the new one; no other step changes any.
  pub Reachable-Goes :
      TakesHeights L
      → PeeksIndices V
      → (p : Program L) (op : Op V) → Reachable H V p
      → IsAllowed op p
      → (q : Program L) × (advance H V op p ≡ returned q)
        × Inv L q
        × ((i : ℕ) → (target op p ≡ some i) ⊎ ((q.heap i).value ≡ (p.heap i).value))
  Reachable-Goes takes peeks p op r allowed =
      let v = Reachable-Inv p r in
      advance-Goes p op (IsAllowed-IsCalm H V takes peeks p op v allowed) v
