-- ===== src/TxBuilder/History/Canonical/Once.antt =====
-- The short history has at most one call for each setting.
use bdk_wasm.Base.{
  ℕ, ◌+◌, ◌≤◌, ◌≡◌, refl, Bool, true, false, Option, none, some, List, ◌∷◌, length, ◌==◌,
  if◌then◌else◌, arith,
}
use bdk_wasm.Bdk.Opaque.{BdkTypes}
use bdk_wasm.TxBuilder.{TxBuilder, FeePolicy}
use bdk_wasm.TxBuilder.History.{Setter}
use bdk_wasm.TxBuilder.History.Settings.{Setting, number, is_about, calls_about}
use bdk_wasm.TxBuilder.History.Canonical.{fee_setter, then_some, then_if, choices_of, canonical}

-- How many calls `hs` has about a setting, and whether a number is that of the setting.
abbrev calls_on : {T : BdkTypes} → Setting → List (Setter T) → ℕ
calls_on x hs = length (calls_about x hs)

abbrev hits : Setting → ℕ → ℕ
hits x n = if n == number x then 1 else 0

module _ {T : BdkTypes} (x : Setting) (n : ℕ) where
  calls_on-cons :
      (s : Setter T) (rest : List (Setter T)) (m : ℕ)
      → is_about x s ≡ (n == number x)
      → calls_on x rest ≤ m
      → calls_on x (s ∷ rest) ≤ hits x n + m
  calls_on-cons s rest m e few = ground (arith, e, few)

  calls_on-then_some :
      {A : Type 0} (o : Option A) (s : A → Setter T) (rest : List (Setter T)) (m : ℕ)
      → ((a : A) → is_about x (s a) ≡ (n == number x))
      → calls_on x rest ≤ m
      → calls_on x (then_some o s rest) ≤ hits x n + m
  calls_on-then_some none s rest m e few = omega (arith, few)
  calls_on-then_some (some a) s rest m e few = calls_on-cons (s a) rest m (e a) few

  calls_on-then_if :
      (f : Bool) (s : Setter T) (rest : List (Setter T)) (m : ℕ)
      → is_about x s ≡ (n == number x)
      → calls_on x rest ≤ m
      → calls_on x (then_if f s rest) ≤ hits x n + m
  calls_on-then_if false s rest m e few = omega (arith, few)
  calls_on-then_if true s rest m e few = calls_on-cons s rest m e few

abbrev choice_hits : Setting → ℕ
choice_hits x =
    hits x 7
    + (hits x 8
        + (hits x 11
            + (hits x 12
                + (hits x 13
                    + (hits x 14
                        + (hits x 18
                            + (hits x 19
                                + (hits x 6
                                    + (hits x 3
                                        + (hits x 15 + (hits x 16 + (hits x 17 + 0))))))))))))

abbrev all_hits : Setting → ℕ
all_hits x =
    hits x 1 + (hits x 2 + (hits x 4 + (hits x 5 + (hits x 9 + (hits x 10 + choice_hits x)))))

all_hits-one : (x : Setting) → all_hits x ≡ 1
all_hits-one Setting.recipients = refl
all_hits-one Setting.utxos = refl
all_hits-one Setting.only_spend_from = refl
all_hits-one Setting.unspendable = refl
all_hits-one Setting.fee = refl
all_hits-one Setting.drain_wallet = refl
all_hits-one Setting.drain_to = refl
all_hits-one Setting.confirmations = refl
all_hits-one Setting.dust = refl
all_hits-one Setting.ordering = refl
all_hits-one Setting.change_policy = refl
all_hits-one Setting.nlocktime = refl
all_hits-one Setting.version = refl
all_hits-one Setting.height = refl
all_hits-one Setting.witness_utxo = refl
all_hits-one Setting.redeem_script = refl
all_hits-one Setting.global_xpubs = refl
all_hits-one Setting.sequence = refl
all_hits-one Setting.data_bytes = refl

module _ {T : BdkTypes} where
  choices_of-hits : (x : Setting) (b : TxBuilder T) → calls_on x (choices_of b) ≤ choice_hits x
  choices_of-hits x b =
      calls_on-then_some x 7 b.drain_to _ _ _ (λ _. refl)
        (calls_on-then_some x 8 b.min_confirmations _ _ _ (λ _. refl)
          (calls_on-then_some x 11 b.change_policy _ _ _ (λ _. refl)
            (calls_on-then_some x 12 b.nlocktime _ _ _ (λ _. refl)
              (calls_on-then_some x 13 b.version _ _ _ (λ _. refl)
                (calls_on-then_some x 14 b.current_height _ _ _ (λ _. refl)
                  (calls_on-then_some x 18 b.exact_sequence _ _ _ (λ _. refl)
                    (calls_on-then_some x 19 b.data_bytes _ _ _ (λ _. refl)
                      (calls_on-then_if x 6 b.drain_wallet _ _ _ refl (
                        calls_on-then_if x 3 b.only_spend_from _ _ _ refl (
                          calls_on-then_if x 15 b.only_witness_utxo _ _ _ refl (
                            calls_on-then_if x 16 b.include_output_redeem_witness_script _ _ _ refl
                              (calls_on-then_if x 17 b.add_global_xpubs _ _ _ refl
                                (omega arith)))))))))))))

  fee_setter-fee : (x : Setting) (p : FeePolicy T) → is_about x (fee_setter p) ≡ (5 == number x)
  fee_setter-fee x (FeePolicy.rate r) = refl
  fee_setter-fee x (FeePolicy.absolute a) = refl

  canonical-hits : (x : Setting) (b : TxBuilder T) → calls_on x (canonical b) ≤ all_hits x
  canonical-hits x b =
      let r6 : List (Setter T) = choices_of b in
      let r5 : List (Setter T) = Setter.ordering b.ordering ∷ r6 in
      let r4 : List (Setter T) = Setter.allow_dust b.allow_dust ∷ r5 in
      let r3 : List (Setter T) = fee_setter b.fee_policy ∷ r4 in
      let r2 : List (Setter T) = Setter.unspendable b.unspendable ∷ r3 in
      let r1 : List (Setter T) = Setter.add_utxos b.utxos ∷ r2 in
      calls_on-cons x 1 (Setter.set_recipients b.recipients) r1 _ refl (
        calls_on-cons x 2 (Setter.add_utxos b.utxos) r2 _ refl (
          calls_on-cons x 4 (Setter.unspendable b.unspendable) r3 _ refl (
            calls_on-cons x 5 (fee_setter b.fee_policy) r4 _ (fee_setter-fee x b.fee_policy) (
              calls_on-cons x 9 (Setter.allow_dust b.allow_dust) r5 _ refl (
                calls_on-cons x 10 (Setter.ordering b.ordering) r6 _ refl (choices_of-hits x b))))))

  pub calls_on-canonical :
      (x : Setting) (b : TxBuilder T) → length (calls_about x (canonical b)) ≤ 1
  calls_on-canonical x b = omega (arith, canonical-hits x b, all_hits-one x)
