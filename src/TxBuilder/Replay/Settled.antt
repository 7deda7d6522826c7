-- ===== src/TxBuilder/Replay/Settled.antt =====
-- The builder that a history of setter calls should leave, each field read off the history.
use bdk_wasm.Base.{◌≡◌, ◌||◌, ◌++◌, List, unwrap_or, or_else}
use bdk_wasm.Bdk.Opaque.{BdkTypes}
use bdk_wasm.TxBuilder.{TxBuilder}
use bdk_wasm.TxBuilder.History.{
  Setter, build, latest, raised, added_since, fee_choice, dust_choice, ordering_choice,
  drain_to_choice, confirmations_choice, policy_choice, nlocktime_choice, version_choice,
  height_choice, sequence_choice, data_choice, raises_only_spend_from, raises_drain_wallet,
  raises_only_witness_utxo, raises_redeem_witness_script, raises_global_xpubs, new_recipients,
  more_recipients, new_unspendable, more_unspendable, no_new_utxos, more_utxos,
}
use bdk_wasm.TxBuilder.History.Laws.{build-Reflects}

module _ {T : BdkTypes} where
  abbrev pub settled : List (Setter T) → TxBuilder T → TxBuilder T
  settled hs b = record {
    wallet = b.wallet;
    recipients =
        unwrap_or (latest new_recipients hs) b.recipients
        ++ added_since new_recipients more_recipients hs;
    utxos = unwrap_or (latest no_new_utxos hs) b.utxos ++ added_since no_new_utxos more_utxos hs;
    unspendable =
        unwrap_or (latest new_unspendable hs) b.unspendable
        ++ added_since new_unspendable more_unspendable hs;
    fee_policy = unwrap_or (latest fee_choice hs) b.fee_policy;
    drain_wallet = raised raises_drain_wallet hs || b.drain_wallet;
    drain_to = or_else (latest drain_to_choice hs) b.drain_to;
    allow_dust = unwrap_or (latest dust_choice hs) b.allow_dust;
    ordering = unwrap_or (latest ordering_choice hs) b.ordering;
    min_confirmations = or_else (latest confirmations_choice hs) b.min_confirmations;
    change_policy = or_else (latest policy_choice hs) b.change_policy;
    only_spend_from = raised raises_only_spend_from hs || b.only_spend_from;
    nlocktime = or_else (latest nlocktime_choice hs) b.nlocktime;
    version = or_else (latest version_choice hs) b.version;
    current_height = or_else (latest height_choice hs) b.current_height;
    only_witness_utxo = raised raises_only_witness_utxo hs || b.only_witness_utxo;
    include_output_redeem_witness_script =
        raised raises_redeem_witness_script hs || b.include_output_redeem_witness_script;
    add_global_xpubs = raised raises_global_xpubs hs || b.add_global_xpubs;
    exact_sequence = or_else (latest sequence_choice hs) b.exact_sequence;
    data_bytes = or_else (latest data_choice hs) b.data_bytes;
    is_fee_bump = b.is_fee_bump;
    fee_bump_txid = b.fee_bump_txid;
  }

  -- The setters leave nothing else.
  pub build-settled : (hs : List (Setter T)) (b : TxBuilder T) → build hs b ≡ settled hs b
  build-settled hs b =
      let r = build-Reflects hs b in
      λ i. record {
        wallet = r.wallet i;
        recipients = r.recipients i;
        utxos = r.utxos i;
        unspendable = r.unspendable i;
        fee_policy = r.fee_policy i;
        drain_wallet = r.drain_wallet i;
        drain_to = r.drain_to i;
        allow_dust = r.allow_dust i;
        ordering = r.ordering i;
        min_confirmations = r.min_confirmations i;
        change_policy = r.change_policy i;
        only_spend_from = r.only_spend_from i;
        nlocktime = r.nlocktime i;
        version = r.version i;
        current_height = r.current_height i;
        only_witness_utxo = r.only_witness_utxo i;
        include_output_redeem_witness_script = r.include_output_redeem_witness_script i;
        add_global_xpubs = r.add_global_xpubs i;
        exact_sequence = r.exact_sequence i;
        data_bytes = r.data_bytes i;
        is_fee_bump = r.is_fee_bump i;
        fee_bump_txid = r.fee_bump_txid i;
      }
