-- ===== src/TxBuilder/History/Laws.antt =====
-- After any history of setter calls each setting of the builder is what the history says.
use bdk_wasm.Base.{◌≡◌, refl, ◌∙◌, ◌||◌, List, [], ◌∷◌, ◌++◌, unwrap_or, or_else}
use bdk_wasm.Bdk.Opaque.{BdkTypes}
use bdk_wasm.TxBuilder.{TxBuilder}
use bdk_wasm.TxBuilder.History.Steps.{
  fee_policy_step, allow_dust_step, ordering_step, drain_to_step, min_confirmations_step,
  change_policy_step, nlocktime_step, version_step, current_height_step, exact_sequence_step,
  data_bytes_step, only_spend_from_step, drain_wallet_step, only_witness_utxo_step,
  include_output_redeem_witness_script_step, add_global_xpubs_step, recipients_step,
  unspendable_step, utxos_step,
}
use bdk_wasm.Histories.{latest_lem, latest_option_lem, added_since_lem, raised_lem}
use bdk_wasm.TxBuilder.History.{
  Setter, apply_setter, build, latest, raised, added_since, fee_choice, dust_choice,
  ordering_choice, drain_to_choice, confirmations_choice, policy_choice, nlocktime_choice,
  version_choice, height_choice, sequence_choice, data_choice, raises_only_spend_from,
  raises_drain_wallet, raises_only_witness_utxo, raises_redeem_witness_script, raises_global_xpubs,
  new_recipients, more_recipients, new_unspendable, more_unspendable, no_new_utxos, more_utxos,
}

-- `c` is `b` after the history `hs`.
pub record Reflects {T : BdkTypes} (hs : List (Setter T)) (b c : TxBuilder T) : Type 0 where
  pub fee_policy : c.fee_policy ≡ unwrap_or (latest fee_choice hs) b.fee_policy
  pub allow_dust : c.allow_dust ≡ unwrap_or (latest dust_choice hs) b.allow_dust
  pub ordering : c.ordering ≡ unwrap_or (latest ordering_choice hs) b.ordering
  pub drain_to : c.drain_to ≡ or_else (latest drain_to_choice hs) b.drain_to
  pub min_confirmations :
      c.min_confirmations ≡ or_else (latest confirmations_choice hs) b.min_confirmations
  pub change_policy : c.change_policy ≡ or_else (latest policy_choice hs) b.change_policy
  pub nlocktime : c.nlocktime ≡ or_else (latest nlocktime_choice hs) b.nlocktime
  pub version : c.version ≡ or_else (latest version_choice hs) b.version
  pub current_height : c.current_height ≡ or_else (latest height_choice hs) b.current_height
  pub exact_sequence : c.exact_sequence ≡ or_else (latest sequence_choice hs) b.exact_sequence
  pub data_bytes : c.data_bytes ≡ or_else (latest data_choice hs) b.data_bytes
  pub only_spend_from : c.only_spend_from ≡ (raised raises_only_spend_from hs || b.only_spend_from)
  pub drain_wallet : c.drain_wallet ≡ (raised raises_drain_wallet hs || b.drain_wallet)
  pub only_witness_utxo :
      c.only_witness_utxo ≡ (raised raises_only_witness_utxo hs || b.only_witness_utxo)
  pub include_output_redeem_witness_script :
      c.include_output_redeem_witness_script
      ≡ (raised raises_redeem_witness_script hs || b.include_output_redeem_witness_script)
  pub add_global_xpubs : c.add_global_xpubs ≡ (raised raises_global_xpubs hs || b.add_global_xpubs)
  pub recipients :
      c.recipients
      ≡ unwrap_or (latest new_recipients hs) b.recipients
        ++ added_since new_recipients more_recipients hs
  pub unspendable :
      c.unspendable
      ≡ unwrap_or (latest new_unspendable hs) b.unspendable
        ++ added_since new_unspendable more_unspendable hs
  pub utxos :
      c.utxos ≡ unwrap_or (latest no_new_utxos hs) b.utxos ++ added_since no_new_utxos more_utxos hs
  pub wallet : c.wallet ≡ b.wallet
  pub is_fee_bump : c.is_fee_bump ≡ b.is_fee_bump
  pub fee_bump_txid : c.fee_bump_txid ≡ b.fee_bump_txid

module _ {T : BdkTypes} where
  -- No call touches the three fields that identify the builder.
  keeps_step :
      (b : TxBuilder T) (s : Setter T)
      → ((apply_setter b s).wallet ≡ b.wallet)
        × ((apply_setter b s).is_fee_bump ≡ b.is_fee_bump)
        × ((apply_setter b s).fee_bump_txid ≡ b.fee_bump_txid)
  unfolding apply_setter
  keeps_step b (Setter.allow_dust _) = (refl, refl, refl)
  keeps_step b _ = (refl, refl, refl)

  pub build_keeps :
      (hs : List (Setter T)) (b : TxBuilder T)
      → ((build hs b).wallet ≡ b.wallet)
        × ((build hs b).is_fee_bump ≡ b.is_fee_bump)
        × ((build hs b).fee_bump_txid ≡ b.fee_bump_txid)
  unfolding build
  build_keeps [] b = (refl, refl, refl)
  build_keeps (s ∷ hs) b =
      let (w, m, t) = keeps_step b s in
      let (ws, ms, ts) = build_keeps hs (apply_setter b s) in (ws ∙ w, ms ∙ m, ts ∙ t)

  -- Whatever setters are called on a builder and in whatever order, each setting ends as its last
  -- choice (`fee_rate` and `fee_absolute` are choices of one setting, and so are the change policy
  -- and its shorthands), each flag is on exactly if it was on or was raised, each list holds what
  -- was added since it was last replaced, and the wallet and the fee-bump mode stay.
  pub build-Reflects : (hs : List (Setter T)) (b : TxBuilder T) → Reflects hs b (build hs b)
  unfolding build
  build-Reflects hs b = record {
    fee_policy = latest_lem apply_setter (λ d. d.fee_policy) fee_choice fee_policy_step hs b;
    allow_dust = latest_lem apply_setter (λ d. d.allow_dust) dust_choice allow_dust_step hs b;
    ordering = latest_lem apply_setter (λ d. d.ordering) ordering_choice ordering_step hs b;
    drain_to = latest_option_lem apply_setter (λ d. d.drain_to) drain_to_choice drain_to_step hs b;
    min_confirmations =
        latest_option_lem apply_setter (λ d. d.min_confirmations) confirmations_choice
          min_confirmations_step hs b;
    change_policy =
        latest_option_lem apply_setter (λ d. d.change_policy) policy_choice change_policy_step hs b;
    nlocktime =
        latest_option_lem apply_setter (λ d. d.nlocktime) nlocktime_choice nlocktime_step hs b;
    version = latest_option_lem apply_setter (λ d. d.version) version_choice version_step hs b;
    current_height =
        latest_option_lem apply_setter (λ d. d.current_height) height_choice current_height_step hs
          b;
    exact_sequence =
        latest_option_lem apply_setter (λ d. d.exact_sequence) sequence_choice exact_sequence_step
          hs b;
    data_bytes =
        latest_option_lem apply_setter (λ d. d.data_bytes) data_choice data_bytes_step hs b;
    only_spend_from =
        raised_lem apply_setter (λ d. d.only_spend_from) raises_only_spend_from only_spend_from_step
          hs b;
    drain_wallet =
        raised_lem apply_setter (λ d. d.drain_wallet) raises_drain_wallet drain_wallet_step hs b;
    only_witness_utxo =
        raised_lem apply_setter (λ d. d.only_witness_utxo) raises_only_witness_utxo
          only_witness_utxo_step hs b;
    include_output_redeem_witness_script =
        raised_lem apply_setter (λ d. d.include_output_redeem_witness_script)
          raises_redeem_witness_script include_output_redeem_witness_script_step hs b;
    add_global_xpubs =
        raised_lem apply_setter (λ d. d.add_global_xpubs) raises_global_xpubs add_global_xpubs_step
          hs b;
    recipients =
        added_since_lem apply_setter (λ d. d.recipients) new_recipients more_recipients
          recipients_step hs b;
    unspendable =
        added_since_lem apply_setter (λ d. d.unspendable) new_unspendable more_unspendable
          unspendable_step hs b;
    utxos = added_since_lem apply_setter (λ d. d.utxos) no_new_utxos more_utxos utxos_step hs b;
    wallet = (build_keeps hs b).0;
    is_fee_bump = (build_keeps hs b).1;
    fee_bump_txid = (build_keeps hs b).2;
  }
