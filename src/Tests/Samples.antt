-- ===== src/Tests/Samples.antt =====
-- A concrete stand-in for bdk_wallet: a wallet counts the transactions it has made, and a builder
-- borrows a wallet and notes the options that are set on it.
use bdk_wasm.Base.{ℕ, ◌+◌, String, refl, Bool, true, false, none, some, List, [], ◌∷◌}
use bdk_wasm.Base.{ok, err, returned, panicked, leb, ltb, lt→ltb, if◌then◌else◌, arith}
use bdk_wasm.Bdk.Kinds.{BdkTxOrdering}
use bdk_wasm.Bdk.Opaque.{BdkTypes, BdkOutPoint}
use bdk_wasm.Bdk.Errors.{BuildFeeBumpError, CreateTxError}
use bdk_wasm.Bdk.Builder.{BuilderLib, IsLawful, max_height, TakesHeights}
use bdk_wasm.Types.Error.{Host}

abbrev pub types : BdkTypes
types = record {
  Txid = ℕ;
  BlockHash = String;
  Script = String;
  Amount = ℕ;
  FeeRate = ℕ;
  Transaction = String;
  Psbt = List String;
  Detail = String;
  JsValue = String;
}

abbrev pub host : Host types
host = record {
  undefined = "undefined";
  to_value = λ _. some "value";
  amount_text = λ _. "amount";
  address_text = λ _. "address";
  add_utxo_text = λ _. "unknown utxo";
  fee_bump_text = λ _. "fee bump";
  create_tx_text = λ _. "create tx";
  connect_text = λ _. "connect";
  header_text = λ _. "header";
}

abbrev pub noted : String → ℕ × List String → ℕ × List String
noted word (wallet, trace) = (wallet, word ∷ trace)

-- An outpoint beyond the thousandth is unknown.
abbrev pub all_known : List (BdkOutPoint types) → Bool
all_known [] = true
all_known (o ∷ os) = if leb o.vout 1000 then all_known os else false

abbrev pub lib : BuilderLib types
lib = record {
  Wallet = ℕ;
  Builder = ℕ × List String;
  LockTime = ℕ;
  PushBytes = List ℕ;
  default_ordering = BdkTxOrdering.shuffle;
  fees = record {
    from_sat_per_vb_unchecked = λ n. n;
    to_sat_per_kwu = λ n. n;
    to_sat_per_vb_ceil = λ n. n;
    to_sat_per_vb_floor = λ n. n;
  };
  from_consensus = λ n. n;
  push_bytes = λ bytes. some bytes;
  build_tx = λ w. (w, []);
  build_fee_bump = λ w t.
      if leb t 9 then ok (w, "bump" ∷ []) else err (BuildFeeBumpError.transaction_not_found t, w);
  wallet_of = λ b. b.0;
  ordering = λ _. noted "ordering";
  set_recipients = λ _. noted "recipients";
  unspendable = λ _. noted "unspendable";
  allow_dust = λ _. noted "dust";
  fee_rate = λ _. noted "rate";
  fee_absolute = λ _. noted "absolute";
  add_utxos = λ os b.
      if all_known os then (none, noted "utxos" b) else (some (record { detail = "utxo" }), b);
  manually_selected_only = noted "manual";
  exclude_below_confirmations = λ _. noted "confirmations";
  change_policy = λ _. noted "change";
  drain_wallet = noted "drain";
  drain_to = λ _. noted "drain to";
  nlocktime = λ _. noted "locktime";
  version = λ _. noted "version";
  current_height =
      λ n b. if ltb n max_height then returned (noted "height" b) else panicked "Invalid height";
  only_witness_utxo = noted "witness";
  include_output_redeem_witness_script = noted "redeem";
  add_global_xpubs = noted "xpubs";
  set_exact_sequence = λ _. noted "sequence";
  add_data = λ _. noted "data";
  finish = λ b. if leb b.0 9 then (ok b.1, b.0 + 1) else (err CreateTxError.no_utxos_selected, b.0);
}

pub lib-IsLawful : IsLawful lib
lib-IsLawful = record {
  build_tx_wallet = λ w. refl;
  refused_wallet = λ w v t e h. ground arith;
  accepted_wallet = λ w t x h. ground arith;
  ordering_wallet = λ o b. refl;
  set_recipients_wallet = λ o b. refl;
  unspendable_wallet = λ o b. refl;
  allow_dust_wallet = λ o b. refl;
  fee_rate_wallet = λ o b. refl;
  fee_absolute_wallet = λ o b. refl;
  add_utxos_wallet = λ os b. ground arith;
  manually_selected_only_wallet = λ b. refl;
  exclude_below_confirmations_wallet = λ o b. refl;
  change_policy_wallet = λ o b. refl;
  drain_wallet_wallet = λ b. refl;
  drain_to_wallet = λ o b. refl;
  nlocktime_wallet = λ o b. refl;
  version_wallet = λ o b. refl;
  current_height_wallet = λ n b c e. ground arith;
  only_witness_utxo_wallet = λ b. refl;
  include_output_redeem_witness_script_wallet = λ b. refl;
  add_global_xpubs_wallet = λ b. refl;
  set_exact_sequence_wallet = λ o b. refl;
  add_data_wallet = λ o b. refl;
  push_bytes_fits = λ bytes h e. ground arith;
}

pub lib-TakesHeights : TakesHeights lib
lib-TakesHeights n b h = (noted "height" b, rw (lt→ltb n max_height h))
