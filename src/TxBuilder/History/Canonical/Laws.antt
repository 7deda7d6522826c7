-- ===== src/TxBuilder/History/Canonical/Laws.antt =====
-- The short history makes the builder.
use bdk_wasm.Base.{
  ℕ, ◌≤◌, ◌≡◌, sym, ap, ◌∙◌, inl, inr, false, ◌||◌, none, [], or_else, ◌++◌, length, arith,
}
use mathlib.Core.Bool.{or-false}
use bdk_wasm.Bdk.Opaque.{BdkTypes}
use bdk_wasm.Bdk.Builder.{BuilderLib}
use bdk_wasm.Histories.{or_else-none}
use bdk_wasm.TxBuilder.{TxBuilder, builder_new, builder_new_fee_bump}
use bdk_wasm.TxBuilder.History.{build}
use bdk_wasm.TxBuilder.Finish.Panics.{MadeFrom}
use bdk_wasm.TxBuilder.History.Canonical.{canonical}
use bdk_wasm.TxBuilder.History.Canonical.Once.{calls_on-canonical}
use bdk_wasm.TxBuilder.History.Settings.{Setting, calls_about}
use bdk_wasm.TxBuilder.History.Canonical.Steps.{chosen, given, build-canonical, choices_of-length}

module _ {T : BdkTypes} (L : BuilderLib T) where
  -- What a new builder leaves unset.
  abbrev IsUnset : TxBuilder T → Type 0
  IsUnset c =
      (c.utxos ≡ [])
      × (c.drain_to ≡ none)
      × (c.min_confirmations ≡ none)
      × (c.change_policy ≡ none)
      × (c.nlocktime ≡ none)
      × (c.version ≡ none)
      × (c.current_height ≡ none)
      × (c.exact_sequence ≡ none)
      × (c.data_bytes ≡ none)
      × (c.drain_wallet ≡ false)
      × (c.only_spend_from ≡ false)
      × (c.only_witness_utxo ≡ false)
      × (c.include_output_redeem_witness_script ≡ false)
      × (c.add_global_xpubs ≡ false)

  settles :
      (start b : TxBuilder T)
      → IsUnset start
      → b.wallet ≡ start.wallet
      → b.is_fee_bump ≡ start.is_fee_bump
      → b.fee_bump_txid ≡ start.fee_bump_txid
      → chosen b (given b start) ≡ b
  settles start b (us, s, m, p, n, v, t, e, d, w, o, u, r, g) wallet bump txid = λ i. record b {
    wallet = sym wallet i;
    utxos = ap (λ l. l ++ b.utxos) us i;
    drain_to = (ap (or_else b.drain_to) s ∙ or_else-none b.drain_to) i;
    min_confirmations = (ap (or_else b.min_confirmations) m ∙ or_else-none b.min_confirmations) i;
    change_policy = (ap (or_else b.change_policy) p ∙ or_else-none b.change_policy) i;
    nlocktime = (ap (or_else b.nlocktime) n ∙ or_else-none b.nlocktime) i;
    version = (ap (or_else b.version) v ∙ or_else-none b.version) i;
    current_height = (ap (or_else b.current_height) t ∙ or_else-none b.current_height) i;
    exact_sequence = (ap (or_else b.exact_sequence) e ∙ or_else-none b.exact_sequence) i;
    data_bytes = (ap (or_else b.data_bytes) d ∙ or_else-none b.data_bytes) i;
    drain_wallet = (ap (λ f. b.drain_wallet || f) w ∙ or-false b.drain_wallet) i;
    only_spend_from = (ap (λ f. b.only_spend_from || f) o ∙ or-false b.only_spend_from) i;
    only_witness_utxo = (ap (λ f. b.only_witness_utxo || f) u ∙ or-false b.only_witness_utxo) i;
    include_output_redeem_witness_script =
        (ap (λ f. b.include_output_redeem_witness_script || f) r
            ∙ or-false b.include_output_redeem_witness_script)
          i;
    add_global_xpubs = (ap (λ f. b.add_global_xpubs || f) g ∙ or-false b.add_global_xpubs) i;
    is_fee_bump = sym bump i;
    fee_bump_txid = sym txid i;
  }

  new-IsUnset : (h : ℕ) (start : TxBuilder T) → MadeFrom L h start → IsUnset start
  unfolding builder_new builder_new_fee_bump
  new-IsUnset h start (inl e) = ground arith
  new-IsUnset h start (inr (t, e)) = ground arith

  -- Every builder that has the wallet and the mode of a new one is made from the new one by at most
  -- nineteen setter calls, which are read off it, with at most one call about each setting: no
  -- configuration is out of the setters' reach, and none needs a setting to be made twice.
  pub canonical-reaches :
      (h : ℕ) (start b : TxBuilder T)
      → MadeFrom L h start
      → b.wallet ≡ start.wallet
      → b.is_fee_bump ≡ start.is_fee_bump
      → b.fee_bump_txid ≡ start.fee_bump_txid
      → (build (canonical b) start ≡ b)
        × (length (canonical b) ≤ 19)
        × ((x : Setting) → length (calls_about x (canonical b)) ≤ 1)
  canonical-reaches h start b made wallet bump txid =
      let unset = new-IsUnset h start made in
      (
        build-canonical b start ∙ settles start b unset wallet bump txid,
        omega (arith, choices_of-length b),
        λ x. calls_on-canonical x b,
      )
