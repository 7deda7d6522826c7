-- ===== src/TxBuilder/Finish/Keeping.antt =====
-- Configuring bdk_wallet's builder leaves the wallet that it borrows alone.
use bdk_wasm.Base.{
  ℕ, String, returned, panicked, ap, ◌≡◌, refl, ◌∙◌, Bool, true, false, Option, none, some,
}
use bdk_wasm.Bdk.Opaque.{BdkTypes}
use bdk_wasm.Bdk.Builder.{BuilderLib, IsLawful}
use bdk_wasm.Types.Wrapper.{into_inner}
use bdk_wasm.TxBuilder.{TxBuilder, FeePolicy, policy_into_bdk}
use bdk_wasm.TxBuilder.Finish.{
  set_if, set_some, try_some, configure_last, apply_fee_policy, configure_fee_bump, configure_first,
  configure_rest,
}

module _ {T : BdkTypes} (L : BuilderLib T) (laws : IsLawful L) where
  open L use {Builder, wallet_of}

  keeps_if :
      (flag : Bool) (option : Builder → Builder) (x : Builder)
      → ((y : Builder) → wallet_of (option y) ≡ wallet_of y)
      → wallet_of (set_if flag option x) ≡ wallet_of x
  keeps_if true option x keep = keep x
  keeps_if false option x keep = refl

  keeps_some :
      {A : Type 0} (field : Option A) (option : A → Builder → Builder) (x : Builder)
      → ((a : A) (y : Builder) → wallet_of (option a y) ≡ wallet_of y)
      → wallet_of (set_some field option x) ≡ wallet_of x
  keeps_some none option x keep = refl
  keeps_some (some a) option x keep = keep a x

  keeps_fee : (p : FeePolicy T) (x : Builder) → wallet_of (apply_fee_policy L p x) ≡ wallet_of x
  unfolding apply_fee_policy
  keeps_fee (FeePolicy.rate r) x = laws.fee_rate_wallet _ x
  keeps_fee (FeePolicy.absolute a) x = laws.fee_absolute_wallet _ x

  pub keeps_first :
      (b : TxBuilder T) (x : Builder) → wallet_of (configure_first L b x) ≡ wallet_of x
  unfolding configure_first
  keeps_first b x =
      keeps_fee b.fee_policy _
      ∙ laws.allow_dust_wallet _ _
      ∙ laws.unspendable_wallet _ _
      ∙ laws.set_recipients_wallet _ _
      ∙ laws.ordering_wallet _ x

  pub keeps_fee_bump :
      (b : TxBuilder T) (x : Builder) → wallet_of (configure_fee_bump L b x) ≡ wallet_of x
  unfolding configure_fee_bump
  keeps_fee_bump b x =
      keeps_if b.add_global_xpubs L.add_global_xpubs _ laws.add_global_xpubs_wallet
      ∙ keeps_if b.include_output_redeem_witness_script L.include_output_redeem_witness_script _
          laws.include_output_redeem_witness_script_wallet
      ∙ keeps_if b.only_witness_utxo L.only_witness_utxo _ laws.only_witness_utxo_wallet
      ∙ laws.allow_dust_wallet _ _
      ∙ laws.ordering_wallet _ _
      ∙ keeps_fee b.fee_policy x

  pub keeps_rest : (b : TxBuilder T) (x : Builder) → wallet_of (configure_rest L b x) ≡ wallet_of x
  unfolding configure_rest
  keeps_rest b x =
      keeps_some b.version L.version _ laws.version_wallet
      ∙ keeps_some b.nlocktime (λ n. L.nlocktime (L.from_consensus n)) _
          (λ n. laws.nlocktime_wallet (L.from_consensus n))
      ∙ keeps_some b.drain_to (λ s. L.drain_to (into_inner s)) _
          (λ s. laws.drain_to_wallet (into_inner s))
      ∙ keeps_if b.drain_wallet L.drain_wallet _ laws.drain_wallet_wallet
      ∙ keeps_some b.change_policy (λ p. L.change_policy (policy_into_bdk p)) _
          (λ p. laws.change_policy_wallet (policy_into_bdk p))
      ∙ keeps_some b.min_confirmations L.exclude_below_confirmations _
          laws.exclude_below_confirmations_wallet
      ∙ keeps_if b.only_spend_from L.manually_selected_only x laws.manually_selected_only_wallet

  pub keeps_height :
      (height : Option ℕ) (x z : Builder)
      → try_some height L.current_height x ≡ returned z
      → wallet_of z ≡ wallet_of x
  keeps_height none x z e = ap wallet_of (cc)
  keeps_height (some n) x z e = laws.current_height_wallet n x z e

  pub height_panics :
      (height : Option ℕ) (x : Builder) (m : String)
      → try_some height L.current_height x ≡ panicked m
      → (n : ℕ) × (height ≡ some n) × (L.current_height n x ≡ panicked m)
  height_panics none x m e = absurd (cc)
  height_panics (some n) x m e = (n, refl, e)

  pub keeps_last : (b : TxBuilder T) (x : Builder) → wallet_of (configure_last L b x) ≡ wallet_of x
  unfolding configure_last
  keeps_last b x =
      keeps_some b.exact_sequence L.set_exact_sequence _ laws.set_exact_sequence_wallet
      ∙ keeps_if b.add_global_xpubs L.add_global_xpubs _ laws.add_global_xpubs_wallet
      ∙ keeps_if b.include_output_redeem_witness_script L.include_output_redeem_witness_script _
          laws.include_output_redeem_witness_script_wallet
      ∙ keeps_if b.only_witness_utxo L.only_witness_utxo x laws.only_witness_utxo_wallet
