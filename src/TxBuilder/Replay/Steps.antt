-- ===== src/TxBuilder/Replay/Steps.antt =====
-- The stretches of `finish` as replays.
use bdk_wasm.Base.{
  ℕ, ◌≡◌, refl, sym, ap, ◌∙◌, inl, inr, Bool, true, false, Option, none, some, List, [], ◌∷◌, map,
  err, returned, panicked, fun_ext, is_empty, Option-cases, Bool-cases, arith,
}
use bdk_wasm.Base.Results.{Outcome-cases}
use bdk_wasm.Bdk.Opaque.{BdkTypes}
use bdk_wasm.Bdk.Builder.{BuilderLib}
use bdk_wasm.Types.Error.{Host}
use bdk_wasm.Types.Wrapper.{into_inner}
use bdk_wasm.TxBuilder.{TxBuilder, FeePolicy, policy_into_bdk, ordering_into_bdk}
use bdk_wasm.TxBuilder.Errors.{from_add_utxo_error}
use bdk_wasm.TxBuilder.Finish.{
  set_if, set_some, apply_fee_policy, configure_fee_bump, configure_first, configure_rest, try_some,
  configure_last, Finished, finish_builder, finish_data, finish_rest, finish_utxos,
}
use bdk_wasm.TxBuilder.Finish.Steps.{finish_utxos_empty, finish_utxos_known, finish_utxos_unknown}
use bdk_wasm.TxBuilder.Replay.{
  Stop, last_calls, BdkCall, call_on, replay, when, given, fee_call, psbt_calls, bump_calls,
  chosen_calls, normal_calls, utxo_calls,
}

module _ {T : BdkTypes} (H : Host T) (L : BuilderLib T) where
  open L use {Builder}

  replay_head :
      (c : BdkCall T) (cs : List (BdkCall T)) (x : Builder) (out : Option (Stop H L) × Builder)
      → call_on H L c x ≡ out
      → replay H L (c ∷ cs) x
        ≡ (elim out.0 [ none ↦ replay H L cs out.1 | some stop ↦ (stop, L.wallet_of out.1) ])
  replay_head c cs x out e =
      ap (λ o. elim o.0 [ none ↦ replay H L cs o.1 | some stop ↦ (stop, L.wallet_of o.1) ]) e

  -- A call that cannot be refused, made under a condition.
  replay-when :
      (flag : Bool) (c : BdkCall T) (f : Builder → Builder)
      → ((x : Builder) → call_on H L c x ≡ (none, f x))
      → (cs : List (BdkCall T)) (x : Builder)
      → replay H L (when flag c cs) x ≡ replay H L cs (set_if flag f x)
  unfolding when
  replay-when false c f e cs x = refl
  replay-when true c f e cs x = replay_head c cs x (none, f x) (e x)

  replay-given :
      {A : Type 0} (o : Option A) (k : A → BdkCall T) (f : A → Builder → Builder)
      → ((a : A) (x : Builder) → call_on H L (k a) x ≡ (none, f a x))
      → (cs : List (BdkCall T)) (x : Builder)
      → replay H L (given o k cs) x ≡ replay H L cs (set_some o f x)
  unfolding given
  replay-given none k f e cs x = refl
  replay-given (some a) k f e cs x = replay_head (k a) cs x (none, f a x) (e a x)

  replay-fee_call :
      (p : FeePolicy T) (cs : List (BdkCall T)) (x : Builder)
      → replay H L (fee_call p ∷ cs) x ≡ replay H L cs (apply_fee_policy L p x)
  unfolding apply_fee_policy
  replay-fee_call (FeePolicy.rate r) cs x = refl
  replay-fee_call (FeePolicy.absolute a) cs x = refl

  replay-add_data :
      (bytes : Option (List ℕ)) (x : Builder)
      → replay H L (given bytes BdkCall.add_data []) x ≡ finish_data H L bytes x
  unfolding finish_data finish_builder given
  replay-add_data none x = refl
  replay-add_data (some bytes) x = ground arith

  -- What the three flags of the PSBT do to a builder.
  set_psbt_flags : TxBuilder T → Builder → Builder
  set_psbt_flags b x = set_if b.add_global_xpubs L.add_global_xpubs (
      set_if b.include_output_redeem_witness_script L.include_output_redeem_witness_script
        (set_if b.only_witness_utxo L.only_witness_utxo x))

  replay-psbt_calls :
      (b : TxBuilder T) (rest : List (BdkCall T)) (x : Builder)
      → replay H L (psbt_calls b rest) x ≡ replay H L rest (set_psbt_flags b x)
  unfolding set_psbt_flags
  replay-psbt_calls b rest x =
      replay-when b.only_witness_utxo _ L.only_witness_utxo (λ _. refl) _ x
      ∙ replay-when b.include_output_redeem_witness_script _ L.include_output_redeem_witness_script
          (λ _. refl) _ _
      ∙ replay-when b.add_global_xpubs _ L.add_global_xpubs (λ _. refl) rest _

  pub replay-bump_calls :
      (b : TxBuilder T) (x : Builder)
      → replay H L (bump_calls b) x ≡ finish_builder H L (configure_fee_bump L b x)
  unfolding configure_fee_bump finish_builder set_psbt_flags
  replay-bump_calls b x =
      replay-fee_call b.fee_policy
        (BdkCall.ordering (ordering_into_bdk b.ordering)
          ∷ BdkCall.allow_dust b.allow_dust
          ∷ psbt_calls b [])
        x
      ∙ replay-psbt_calls b [] _

  replay-height :
      (o : Option ℕ) (cs : List (BdkCall T)) (x : Builder)
      → replay H L (given o BdkCall.current_height cs) x ≡ (elim (try_some o L.current_height x) [
        | returned z ↦ replay H L cs z
        | panicked message ↦ (panicked message, L.wallet_of x)
      ])
  unfolding given
  replay-height none cs x = refl
  replay-height (some n) cs x = elim (Outcome-cases (L.current_height n x)) [
    | inl (z, e) ↦ rw e (replay_head (BdkCall.current_height n) cs x (none, z) (rw (e, call_on)))
    | inr (m, e) ↦
        rw e (replay_head (BdkCall.current_height n) cs x (some (panicked m), x) (rw (e, call_on)))
  ]

  replay-last :
      (b : TxBuilder T) (x : Builder)
      → replay H L (psbt_calls b (last_calls b)) x
        ≡ finish_data H L b.data_bytes (configure_last L b x)
  unfolding configure_last set_psbt_flags
  replay-last b x =
      replay-psbt_calls b _ x
      ∙ replay-given b.exact_sequence _ L.set_exact_sequence (λ _ _. refl) _ _
      ∙ replay-add_data b.data_bytes _

  replay-chosen_calls :
      (b : TxBuilder T) (x : Builder) → replay H L (chosen_calls b) x ≡ finish_rest H L b x
  unfolding configure_rest finish_rest
  replay-chosen_calls b x =
      replay-when b.only_spend_from _ L.manually_selected_only (λ _. refl) _ x
      ∙ replay-given b.min_confirmations _ L.exclude_below_confirmations (λ _ _. refl) _ _
      ∙ replay-given b.change_policy _ (λ p. L.change_policy (policy_into_bdk p)) (λ _ _. refl) _ _
      ∙ replay-when b.drain_wallet _ L.drain_wallet (λ _. refl) _ _
      ∙ replay-given b.drain_to _ (λ s. L.drain_to (into_inner s)) (λ _ _. refl) _ _
      ∙ replay-given b.nlocktime _ (λ n. L.nlocktime (L.from_consensus n)) (λ _ _. refl) _ _
      ∙ replay-given b.version _ L.version (λ _ _. refl) _ _
      ∙ replay-height b.current_height (psbt_calls b (last_calls b)) (configure_rest L b x)
      ∙ ap
          (λ (f : Builder → Finished H L).
            elim (try_some b.current_height L.current_height (configure_rest L b x)) [
              | returned z ↦ f z
              | panicked message ↦ (panicked message, L.wallet_of (configure_rest L b x))
            ])
          (fun_ext (replay-last b))

  -- After the outpoints to spend, if there are any.
  replay-add_utxos :
      (b : TxBuilder T) (x : Builder) → replay H L (utxo_calls b) x ≡ finish_utxos H L b x
  replay-add_utxos b x = elim (Bool-cases (is_empty b.utxos)) [
    | inl e ↦ rw (e, utxo_calls) (replay-chosen_calls b x) ∙ sym (finish_utxos_empty H L b x e)
    | inr e ↦
        let os = map into_inner b.utxos in
        let (r, y) = L.add_utxos os x in
        let c : BdkCall T = BdkCall.add_utxos os in
        elim (Option-cases r) [
          | inl known ↦
              rw (e, utxo_calls) (replay_head c (chosen_calls b) x (none, y) (rw known))
              ∙ replay-chosen_calls b y
              ∙ sym (finish_utxos_known H L b x e known)
          | inr (u, unknown) ↦
              rw (e, utxo_calls)
                (replay_head c (chosen_calls b) x
                  (some (returned (err (from_add_utxo_error H u))), y) (rw unknown))
              ∙ sym (finish_utxos_unknown H L b x u e unknown)
        ]
  ]

  pub replay-normal_calls :
      (b : TxBuilder T) (x : Builder)
      → replay H L (normal_calls b) x ≡ finish_utxos H L b (configure_first L b x)
  unfolding configure_first
  replay-normal_calls b x = replay-fee_call b.fee_policy (utxo_calls b) _ ∙ replay-add_utxos b _
