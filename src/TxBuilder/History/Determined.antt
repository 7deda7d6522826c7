-- ===== src/TxBuilder/History/Determined.antt =====
-- The order of setters of different settings does not matter.
use bdk_wasm.Base.{
  ◌≡◌, refl, ap, sym, ◌∙◌, inl, inr, Bool, false, ◌||◌, Option, none, List, [], ◌∷◌, ◌++◌,
  Bool-cases, unwrap_or, or_else, if◌then◌else◌, is_some, arith,
}
use bdk_wasm.Histories.{or_else-none}
use bdk_wasm.Bdk.Opaque.{BdkTypes}
use bdk_wasm.TxBuilder.{TxBuilder}
use bdk_wasm.TxBuilder.Replay.Settled.{settled, build-settled}
use bdk_wasm.TxBuilder.History.{
  Setter, build, latest, raised, added_since, fee_choice, dust_choice, ordering_choice,
  drain_to_choice, confirmations_choice, policy_choice, nlocktime_choice, version_choice,
  height_choice, sequence_choice, data_choice, raises_only_spend_from, raises_drain_wallet,
  raises_only_witness_utxo, raises_redeem_witness_script, raises_global_xpubs, new_recipients,
  more_recipients, new_unspendable, more_unspendable, no_new_utxos, more_utxos,
}
use bdk_wasm.TxBuilder.History.Settings.{Setting, is_about, calls_about}

module _ {T : BdkTypes} (x : Setting) where
  latest-calls_about :
      {A : Type 0} (choice : Setter T → Option A)
      → ((s : Setter T) → is_about x s ≡ false → choice s ≡ none)
      → (hs : List (Setter T)) → latest choice (calls_about x hs) ≡ latest choice hs
  latest-calls_about choice silent [] = refl
  latest-calls_about choice silent (s ∷ hs) = elim (Bool-cases (is_about x s)) [
    | inl e ↦ rw e (ap (λ o. or_else o (choice s)) (latest-calls_about choice silent hs))
    | inr e ↦
        rw (e, silent s e, or_else-none (latest choice hs)) (latest-calls_about choice silent hs)
  ]

  raised-calls_about :
      (raises : Setter T → Bool)
      → ((s : Setter T) → is_about x s ≡ false → raises s ≡ false)
      → (hs : List (Setter T)) → raised raises (calls_about x hs) ≡ raised raises hs
  raised-calls_about raises silent [] = refl
  raised-calls_about raises silent (s ∷ hs) = elim (Bool-cases (is_about x s)) [
    | inl e ↦ rw e (ap (λ r. raises s || r) (raised-calls_about raises silent hs))
    | inr e ↦ rw (e, silent s e) (raised-calls_about raises silent hs)
  ]

  added_since-calls_about :
      {A : Type 0} (replaces : Setter T → Option (List A)) (adds : Setter T → List A)
      → ((s : Setter T) → is_about x s ≡ false → replaces s ≡ none)
      → ((s : Setter T) → is_about x s ≡ false → adds s ≡ [])
      → (hs : List (Setter T))
      → added_since replaces adds (calls_about x hs) ≡ added_since replaces adds hs
  added_since-calls_about replaces adds silent adds_none [] = refl
  added_since-calls_about replaces adds silent adds_none (s ∷ hs) =
      let rest = added_since-calls_about replaces adds silent adds_none hs in
      elim (Bool-cases (is_about x s)) [
        | inl e ↦ rw e (
            rw (latest-calls_about replaces silent hs)
              (ap (λ r. if is_some (latest replaces hs) then r else adds s ++ r) rest))
        | inr e ↦ rw (e, adds_none s e) (rest ∙ ground arith)
      ]

-- Two histories with the same calls about a setting agree on what is read off for it.
module _ {T : BdkTypes} (x : Setting) (hs hs' : List (Setter T))
    (same : calls_about x hs ≡ calls_about x hs') where
  latest_agrees :
      {A : Type 0} (choice : Setter T → Option A)
      → ((s : Setter T) → is_about x s ≡ false → choice s ≡ none)
      → latest choice hs ≡ latest choice hs'
  latest_agrees choice silent =
      sym (latest-calls_about x choice silent hs)
      ∙ ap (latest choice) same
      ∙ latest-calls_about x choice silent hs'

  raised_agrees :
      (raises : Setter T → Bool)
      → ((s : Setter T) → is_about x s ≡ false → raises s ≡ false)
      → raised raises hs ≡ raised raises hs'
  raised_agrees raises silent =
      sym (raised-calls_about x raises silent hs)
      ∙ ap (raised raises) same
      ∙ raised-calls_about x raises silent hs'

  list_agrees :
      {A : Type 0} (replaces : Setter T → Option (List A)) (adds : Setter T → List A) (old : List A)
      → ((s : Setter T) → is_about x s ≡ false → replaces s ≡ none)
      → ((s : Setter T) → is_about x s ≡ false → adds s ≡ [])
      → unwrap_or (latest replaces hs) old ++ added_since replaces adds hs
        ≡ unwrap_or (latest replaces hs') old ++ added_since replaces adds hs'
  list_agrees replaces adds old silent adds_none = rw (latest_agrees replaces silent) (
      ap (λ r. unwrap_or (latest replaces hs') old ++ r)
        (sym (added_since-calls_about x replaces adds silent adds_none hs)
          ∙ ap (added_since replaces adds) same
          ∙ added_since-calls_about x replaces adds silent adds_none hs'))

module _ {T : BdkTypes} where
  settled_agrees :
      (hs hs' : List (Setter T)) (b : TxBuilder T)
      → ((x : Setting) → calls_about x hs ≡ calls_about x hs')
      → settled hs b ≡ settled hs' b
  settled_agrees hs hs' b same = λ i. record {
    wallet = b.wallet;
    recipients =
        list_agrees Setting.recipients hs hs' (same Setting.recipients) new_recipients
          more_recipients b.recipients (λ s e. ground arith) (λ s e. ground arith) i;
    utxos =
        list_agrees Setting.utxos hs hs' (same Setting.utxos) no_new_utxos more_utxos b.utxos
          (λ s e. ground arith) (λ s e. ground arith) i;
    unspendable =
        list_agrees Setting.unspendable hs hs' (same Setting.unspendable) new_unspendable
          more_unspendable b.unspendable (λ s e. ground arith) (λ s e. ground arith) i;
    fee_policy =
        unwrap_or
          (latest_agrees Setting.fee hs hs' (same Setting.fee) fee_choice (λ s e. ground arith) i)
          b.fee_policy;
    drain_to =
        or_else
          (latest_agrees Setting.drain_to hs hs' (same Setting.drain_to) drain_to_choice
            (λ s e. ground arith) i)
          b.drain_to;
    allow_dust =
        unwrap_or
          (latest_agrees Setting.dust hs hs' (same Setting.dust) dust_choice (λ s e. ground arith)
            i)
          b.allow_dust;
    ordering =
        unwrap_or
          (latest_agrees Setting.ordering hs hs' (same Setting.ordering) ordering_choice
            (λ s e. ground arith) i)
          b.ordering;
    min_confirmations =
        or_else
          (latest_agrees Setting.confirmations hs hs' (same Setting.confirmations)
            confirmations_choice (λ s e. ground arith) i)
          b.min_confirmations;
    change_policy =
        or_else
          (latest_agrees Setting.change_policy hs hs' (same Setting.change_policy) policy_choice
            (λ s e. ground arith) i)
          b.change_policy;
    nlocktime =
        or_else
          (latest_agrees Setting.nlocktime hs hs' (same Setting.nlocktime) nlocktime_choice
            (λ s e. ground arith) i)
          b.nlocktime;
    version =
        or_else
          (latest_agrees Setting.version hs hs' (same Setting.version) version_choice
            (λ s e. ground arith) i)
          b.version;
    current_height =
        or_else
          (latest_agrees Setting.height hs hs' (same Setting.height) height_choice
            (λ s e. ground arith) i)
          b.current_height;
    exact_sequence =
        or_else
          (latest_agrees Setting.sequence hs hs' (same Setting.sequence) sequence_choice
            (λ s e. ground arith) i)
          b.exact_sequence;
    data_bytes =
        or_else
          (latest_agrees Setting.data_bytes hs hs' (same Setting.data_bytes) data_choice
            (λ s e. ground arith) i)
          b.data_bytes;
    drain_wallet =
        raised_agrees Setting.drain_wallet hs hs' (same Setting.drain_wallet) raises_drain_wallet
          (λ s e. ground arith) i
        || b.drain_wallet;
    only_spend_from =
        raised_agrees Setting.only_spend_from hs hs' (same Setting.only_spend_from)
          raises_only_spend_from (λ s e. ground arith) i
        || b.only_spend_from;
    only_witness_utxo =
        raised_agrees Setting.witness_utxo hs hs' (same Setting.witness_utxo)
          raises_only_witness_utxo (λ s e. ground arith) i
        || b.only_witness_utxo;
    include_output_redeem_witness_script =
        raised_agrees Setting.redeem_script hs hs' (same Setting.redeem_script)
          raises_redeem_witness_script (λ s e. ground arith) i
        || b.include_output_redeem_witness_script;
    add_global_xpubs =
        raised_agrees Setting.global_xpubs hs hs' (same Setting.global_xpubs) raises_global_xpubs
          (λ s e. ground arith) i
        || b.add_global_xpubs;
    is_fee_bump = b.is_fee_bump;
    fee_bump_txid = b.fee_bump_txid;
  }

  -- Two histories of setter calls that, for each setting, hold the same calls about it in the same
  -- order leave the same builder, however the calls about different settings are interleaved, and
  -- wherever `enable_rbf` and `enable_rbf_with_sequence` are called.
  pub build-determined :
      (hs hs' : List (Setter T)) (b : TxBuilder T)
      → ((x : Setting) → calls_about x hs ≡ calls_about x hs')
      → build hs b ≡ build hs' b
  build-determined hs hs' b same =
      build-settled hs b ∙ settled_agrees hs hs' b same ∙ sym (build-settled hs' b)
