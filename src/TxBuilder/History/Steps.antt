-- ===== src/TxBuilder/History/Steps.antt =====
-- What one setter call does to each setting.
use mathlib.Core.List.{append-nil}
use bdk_wasm.Base.{◌≡◌, refl, sym, ◌||◌, ◌++◌, unwrap_or, or_else}
use bdk_wasm.Bdk.Opaque.{BdkTypes}
use bdk_wasm.TxBuilder.{TxBuilder}
use bdk_wasm.TxBuilder.History.{
  Setter, apply_setter, fee_choice, dust_choice, ordering_choice, drain_to_choice,
  confirmations_choice, policy_choice, nlocktime_choice, version_choice, height_choice,
  sequence_choice, data_choice, raises_only_spend_from, raises_drain_wallet,
  raises_only_witness_utxo, raises_redeem_witness_script, raises_global_xpubs, new_recipients,
  more_recipients, new_unspendable, more_unspendable, no_new_utxos, more_utxos,
}

module _ {T : BdkTypes} where
  pub fee_policy_step :
      (b : TxBuilder T) (s : Setter T)
      → (apply_setter b s).fee_policy ≡ unwrap_or (fee_choice s) b.fee_policy
  unfolding apply_setter
  fee_policy_step b (Setter.allow_dust _) = refl
  fee_policy_step b _ = refl

  pub allow_dust_step :
      (b : TxBuilder T) (s : Setter T)
      → (apply_setter b s).allow_dust ≡ unwrap_or (dust_choice s) b.allow_dust
  unfolding apply_setter
  allow_dust_step b (Setter.allow_dust _) = refl
  allow_dust_step b _ = refl

  pub ordering_step :
      (b : TxBuilder T) (s : Setter T)
      → (apply_setter b s).ordering ≡ unwrap_or (ordering_choice s) b.ordering
  unfolding apply_setter
  ordering_step b (Setter.allow_dust _) = refl
  ordering_step b _ = refl

  pub drain_to_step :
      (b : TxBuilder T) (s : Setter T)
      → (apply_setter b s).drain_to ≡ or_else (drain_to_choice s) b.drain_to
  unfolding apply_setter
  drain_to_step b (Setter.allow_dust _) = refl
  drain_to_step b _ = refl

  pub min_confirmations_step :
      (b : TxBuilder T) (s : Setter T)
      → (apply_setter b s).min_confirmations ≡ or_else (confirmations_choice s) b.min_confirmations
  unfolding apply_setter
  min_confirmations_step b (Setter.allow_dust _) = refl
  min_confirmations_step b _ = refl

  pub change_policy_step :
      (b : TxBuilder T) (s : Setter T)
      → (apply_setter b s).change_policy ≡ or_else (policy_choice s) b.change_policy
  unfolding apply_setter
  change_policy_step b (Setter.allow_dust _) = refl
  change_policy_step b _ = refl

  pub nlocktime_step :
      (b : TxBuilder T) (s : Setter T)
      → (apply_setter b s).nlocktime ≡ or_else (nlocktime_choice s) b.nlocktime
  unfolding apply_setter
  nlocktime_step b (Setter.allow_dust _) = refl
  nlocktime_step b _ = refl

  pub version_step :
      (b : TxBuilder T) (s : Setter T)
      → (apply_setter b s).version ≡ or_else (version_choice s) b.version
  unfolding apply_setter
  version_step b (Setter.allow_dust _) = refl
  version_step b _ = refl

  pub current_height_step :
      (b : TxBuilder T) (s : Setter T)
      → (apply_setter b s).current_height ≡ or_else (height_choice s) b.current_height
  unfolding apply_setter
  current_height_step b (Setter.allow_dust _) = refl
  current_height_step b _ = refl

  pub exact_sequence_step :
      (b : TxBuilder T) (s : Setter T)
      → (apply_setter b s).exact_sequence ≡ or_else (sequence_choice s) b.exact_sequence
  unfolding apply_setter
  exact_sequence_step b (Setter.allow_dust _) = refl
  exact_sequence_step b _ = refl

  pub data_bytes_step :
      (b : TxBuilder T) (s : Setter T)
      → (apply_setter b s).data_bytes ≡ or_else (data_choice s) b.data_bytes
  unfolding apply_setter
  data_bytes_step b (Setter.allow_dust _) = refl
  data_bytes_step b _ = refl

  pub only_spend_from_step :
      (b : TxBuilder T) (s : Setter T)
      → (apply_setter b s).only_spend_from ≡ (raises_only_spend_from s || b.only_spend_from)
  unfolding apply_setter
  only_spend_from_step b (Setter.allow_dust _) = refl
  only_spend_from_step b _ = refl

  pub drain_wallet_step :
      (b : TxBuilder T) (s : Setter T)
      → (apply_setter b s).drain_wallet ≡ (raises_drain_wallet s || b.drain_wallet)
  unfolding apply_setter
  drain_wallet_step b (Setter.allow_dust _) = refl
  drain_wallet_step b _ = refl

  pub only_witness_utxo_step :
      (b : TxBuilder T) (s : Setter T)
      → (apply_setter b s).only_witness_utxo ≡ (raises_only_witness_utxo s || b.only_witness_utxo)
  unfolding apply_setter
  only_witness_utxo_step b (Setter.allow_dust _) = refl
  only_witness_utxo_step b _ = refl

  pub include_output_redeem_witness_script_step :
      (b : TxBuilder T) (s : Setter T)
      → (apply_setter b s).include_output_redeem_witness_script
        ≡ (raises_redeem_witness_script s || b.include_output_redeem_witness_script)
  unfolding apply_setter
  include_output_redeem_witness_script_step b (Setter.allow_dust _) = refl
  include_output_redeem_witness_script_step b _ = refl

  pub add_global_xpubs_step :
      (b : TxBuilder T) (s : Setter T)
      → (apply_setter b s).add_global_xpubs ≡ (raises_global_xpubs s || b.add_global_xpubs)
  unfolding apply_setter
  add_global_xpubs_step b (Setter.allow_dust _) = refl
  add_global_xpubs_step b _ = refl

  pub recipients_step :
      (b : TxBuilder T) (s : Setter T)
      → (apply_setter b s).recipients
        ≡ unwrap_or (new_recipients s) b.recipients ++ more_recipients s
  unfolding apply_setter
  recipients_step b (Setter.set_recipients rs) = sym (append-nil rs)
  recipients_step b (Setter.add_recipient _) = refl
  recipients_step b _ = sym (append-nil b.recipients)

  pub unspendable_step :
      (b : TxBuilder T) (s : Setter T)
      → (apply_setter b s).unspendable
        ≡ unwrap_or (new_unspendable s) b.unspendable ++ more_unspendable s
  unfolding apply_setter
  unspendable_step b (Setter.unspendable os) = sym (append-nil os)
  unspendable_step b (Setter.add_unspendable _) = refl
  unspendable_step b _ = sym (append-nil b.unspendable)

  pub utxos_step :
      (b : TxBuilder T) (s : Setter T)
      → (apply_setter b s).utxos ≡ unwrap_or (no_new_utxos s) b.utxos ++ more_utxos s
  unfolding apply_setter
  utxos_step b (Setter.add_utxo _) = refl
  utxos_step b (Setter.add_utxos _) = refl
  utxos_step b _ = sym (append-nil b.utxos)
