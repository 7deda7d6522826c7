-- ===== src/TxBuilder/History/Canonical/Steps.antt =====
-- What the calls of the short history write, and how many they are.
use bdk_wasm.Base.{
  ℕ, suc, ◌≤◌, ◌≡◌, refl, ap, ◌∙◌, Bool, true, false, ◌||◌, Option, none, some, List, or_else, ◌++◌,
  length, arith,
}
use bdk_wasm.Bdk.Opaque.{BdkTypes}
use bdk_wasm.TxBuilder.{TxBuilder, FeePolicy}
use bdk_wasm.TxBuilder.History.{Setter, apply_setter, build}
use bdk_wasm.TxBuilder.History.Canonical.{fee_setter, then_some, then_if, choices_of, canonical}

module _ {T : BdkTypes} where
  then_some_step :
      {A : Type 0} (s : A → Setter T) (write : Option A → TxBuilder T → TxBuilder T)
      → ((a : A) (c : TxBuilder T) → apply_setter c (s a) ≡ write (some a) c)
      → ((c : TxBuilder T) → c ≡ write none c)
      → (o : Option A) (rest : List (Setter T)) (c : TxBuilder T)
      → build (then_some o s rest) c ≡ build rest (write o c)
  unfolding build
  then_some_step s write made kept none rest c = ap (build rest) (kept c)
  then_some_step s write made kept (some a) rest c = ap (build rest) (made a c)

  then_if_step :
      (s : Setter T) (write : Bool → TxBuilder T → TxBuilder T)
      → ((c : TxBuilder T) → apply_setter c s ≡ write true c)
      → ((c : TxBuilder T) → c ≡ write false c)
      → (f : Bool) (rest : List (Setter T)) (c : TxBuilder T)
      → build (then_if f s rest) c ≡ build rest (write f c)
  unfolding build
  then_if_step s write made kept false rest c = ap (build rest) (kept c)
  then_if_step s write made kept true rest c = ap (build rest) (made c)

  -- A builder with the flags of `b` that a new one lacks, and with its choices.
  abbrev pub chosen : TxBuilder T → TxBuilder T → TxBuilder T
  chosen b c = record c {
    drain_to = or_else b.drain_to c.drain_to;
    min_confirmations = or_else b.min_confirmations c.min_confirmations;
    change_policy = or_else b.change_policy c.change_policy;
    nlocktime = or_else b.nlocktime c.nlocktime;
    version = or_else b.version c.version;
    current_height = or_else b.current_height c.current_height;
    exact_sequence = or_else b.exact_sequence c.exact_sequence;
    data_bytes = or_else b.data_bytes c.data_bytes;
    drain_wallet = b.drain_wallet || c.drain_wallet;
    only_spend_from = b.only_spend_from || c.only_spend_from;
    only_witness_utxo = b.only_witness_utxo || c.only_witness_utxo;
    include_output_redeem_witness_script =
        b.include_output_redeem_witness_script || c.include_output_redeem_witness_script;
    add_global_xpubs = b.add_global_xpubs || c.add_global_xpubs;
  }

  choices_of-chosen : (b c : TxBuilder T) → build (choices_of b) c ≡ chosen b c
  unfolding build apply_setter
  choices_of-chosen b c =
      then_some_step Setter.drain_to (λ o c. record c { drain_to = or_else o c.drain_to })
        (λ _ _. refl) (λ _. refl) b.drain_to _ _
      ∙ then_some_step Setter.exclude_below_confirmations
          (λ o c. record c { min_confirmations = or_else o c.min_confirmations }) (λ _ _. refl)
          (λ _. refl) b.min_confirmations _ _
      ∙ then_some_step Setter.change_policy
          (λ o c. record c { change_policy = or_else o c.change_policy }) (λ _ _. refl) (λ _. refl)
          b.change_policy _ _
      ∙ then_some_step Setter.nlocktime (λ o c. record c { nlocktime = or_else o c.nlocktime })
          (λ _ _. refl) (λ _. refl) b.nlocktime _ _
      ∙ then_some_step Setter.version (λ o c. record c { version = or_else o c.version })
          (λ _ _. refl) (λ _. refl) b.version _ _
      ∙ then_some_step Setter.current_height
          (λ o c. record c { current_height = or_else o c.current_height }) (λ _ _. refl)
          (λ _. refl) b.current_height _ _
      ∙ then_some_step Setter.set_exact_sequence
          (λ o c. record c { exact_sequence = or_else o c.exact_sequence }) (λ _ _. refl)
          (λ _. refl) b.exact_sequence _ _
      ∙ then_some_step Setter.add_data (λ o c. record c { data_bytes = or_else o c.data_bytes })
          (λ _ _. refl) (λ _. refl) b.data_bytes _ _
      ∙ then_if_step Setter.drain_wallet (λ o c. record c { drain_wallet = o || c.drain_wallet })
          (λ _. refl) (λ _. refl) b.drain_wallet _ _
      ∙ then_if_step Setter.only_spend_from
          (λ o c. record c { only_spend_from = o || c.only_spend_from }) (λ _. refl) (λ _. refl)
          b.only_spend_from _ _
      ∙ then_if_step Setter.only_witness_utxo
          (λ o c. record c { only_witness_utxo = o || c.only_witness_utxo }) (λ _. refl) (λ _. refl)
          b.only_witness_utxo _ _
      ∙ then_if_step Setter.include_output_redeem_witness_script
          (λ o c. record c {
            include_output_redeem_witness_script = o || c.include_output_redeem_witness_script;
          })
          (λ _. refl) (λ _. refl) b.include_output_redeem_witness_script _ _
      ∙ then_if_step Setter.add_global_xpubs
          (λ o c. record c { add_global_xpubs = o || c.add_global_xpubs }) (λ _. refl) (λ _. refl)
          b.add_global_xpubs _ _

  fee_setter_writes :
      (p : FeePolicy T) (c : TxBuilder T)
      → apply_setter c (fee_setter p) ≡ record c { fee_policy = p }
  unfolding apply_setter
  fee_setter_writes (FeePolicy.rate r) c = refl
  fee_setter_writes (FeePolicy.absolute a) c = refl

  -- What the first six calls write.
  abbrev pub given : TxBuilder T → TxBuilder T → TxBuilder T
  given b c = record c {
    recipients = b.recipients;
    utxos = c.utxos ++ b.utxos;
    unspendable = b.unspendable;
    fee_policy = b.fee_policy;
    allow_dust = b.allow_dust;
    ordering = b.ordering;
  }

  pub build-canonical : (b c : TxBuilder T) → build (canonical b) c ≡ chosen b (given b c)
  unfolding build apply_setter
  build-canonical b c =
      ap (λ d. build (choices_of b) (record d { allow_dust = b.allow_dust; ordering = b.ordering }))
        (fee_setter_writes b.fee_policy (record c {
          recipients = b.recipients;
          utxos = c.utxos ++ b.utxos;
          unspendable = b.unspendable;
        }))
      ∙ choices_of-chosen b (given b c)

  then_some-length :
      {A : Type 0} (o : Option A) (s : A → Setter T) (rest : List (Setter T)) (n : ℕ)
      → length rest ≤ n
      → length (then_some o s rest) ≤ suc n
  then_some-length none s rest n few = omega (arith, few)
  then_some-length (some a) s rest n few = omega (arith, few)

  then_if-length :
      (f : Bool) (s : Setter T) (rest : List (Setter T)) (n : ℕ)
      → length rest ≤ n
      → length (then_if f s rest) ≤ suc n
  then_if-length false s rest n few = omega (arith, few)
  then_if-length true s rest n few = omega (arith, few)

  pub choices_of-length : (b : TxBuilder T) → length (choices_of b) ≤ 13
  choices_of-length b = then_some-length b.drain_to _ _ 12 (
      then_some-length b.min_confirmations _ _ 11 (
        then_some-length b.change_policy _ _ 10 (
          then_some-length b.nlocktime _ _ 9 (
            then_some-length b.version _ _ 8 (
              then_some-length b.current_height _ _ 7 (
                then_some-length b.exact_sequence _ _ 6 (
                  then_some-length b.data_bytes _ _ 5 (
                    then_if-length b.drain_wallet _ _ 4 (
                      then_if-length b.only_spend_from _ _ 3 (
                        then_if-length b.only_witness_utxo _ _ 2 (
                          then_if-length b.include_output_redeem_witness_script _ _ 1
                            (then_if-length b.add_global_xpubs _ _ 0 (omega arith)))))))))))))
