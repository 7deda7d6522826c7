-- ===== src/TxBuilder.antt =====
-- src/bitcoin/tx_builder.rs: the transaction builder that JavaScript configures, and that is
-- replayed on bdk_wallet's builder when it is finished.
pub mod Options
pub mod Errors
pub mod Finish
pub mod History
pub mod Replay
use bdk_wasm.Base.{ℕ, String, Bool, false, Option, none, some, List, []}
use bdk_wasm.Base.{Outcome, returned, panicked}
use bdk_wasm.Base.Int.{ℤ}
use bdk_wasm.Bdk.Kinds.{BdkTxOrdering, BdkChangeSpendPolicy}
use bdk_wasm.Bdk.Opaque.{BdkTypes}
use bdk_wasm.Bdk.Builder.{BuilderLib}
use bdk_wasm.Types.Amount.{Amount, ScriptBuf}
use bdk_wasm.Types.Fee.{FeeRate, fee_rate_new}
use bdk_wasm.Types.Output.{OutPoint}
use bdk_wasm.Types.Psbt.{Recipient}

pub data FeePolicy (T : BdkTypes) : Type 0 where
  rate : FeeRate T → FeePolicy T
  absolute : Amount T → FeePolicy T

pub data TxOrdering : Type 0 where
  shuffle untouched : TxOrdering

pub data ChangeSpendPolicy : Type 0 where
  change_allowed only_change change_forbidden : ChangeSpendPolicy

-- `From<BdkTxOrdering> for TxOrdering`
unfoldable pub ordering_from_bdk : BdkTxOrdering → Outcome TxOrdering
ordering_from_bdk BdkTxOrdering.shuffle = returned TxOrdering.shuffle
ordering_from_bdk BdkTxOrdering.untouched = returned TxOrdering.untouched
ordering_from_bdk _ = panicked "Unsupported ordering"

-- `From<TxOrdering> for BdkTxOrdering`
unfoldable pub ordering_into_bdk : TxOrdering → BdkTxOrdering
ordering_into_bdk TxOrdering.shuffle = BdkTxOrdering.shuffle
ordering_into_bdk TxOrdering.untouched = BdkTxOrdering.untouched

-- `From<ChangeSpendPolicy> for BdkChangeSpendPolicy`
unfoldable pub policy_into_bdk : ChangeSpendPolicy → BdkChangeSpendPolicy
policy_into_bdk ChangeSpendPolicy.change_allowed = BdkChangeSpendPolicy.change_allowed
policy_into_bdk ChangeSpendPolicy.only_change = BdkChangeSpendPolicy.only_change
policy_into_bdk ChangeSpendPolicy.change_forbidden = BdkChangeSpendPolicy.change_forbidden

-- `wallet` is the handle of the wallet's cell; `data_bytes` is the field `data`.
pub record TxBuilder (T : BdkTypes) : Type 0 where
  pub wallet : ℕ
  pub recipients : List (Recipient T)
  pub utxos : List (OutPoint T)
  pub unspendable : List (OutPoint T)
  pub fee_policy : FeePolicy T
  pub drain_wallet : Bool
  pub drain_to : Option (ScriptBuf T)
  pub allow_dust : Bool
  pub ordering : TxOrdering
  pub min_confirmations : Option ℕ
  pub change_policy : Option ChangeSpendPolicy
  pub only_spend_from : Bool
  pub nlocktime : Option ℕ
  pub version : Option ℤ
  pub current_height : Option ℕ
  pub only_witness_utxo : Bool
  pub include_output_redeem_witness_script : Bool
  pub add_global_xpubs : Bool
  pub exact_sequence : Option ℕ
  pub data_bytes : Option (List ℕ)
  pub is_fee_bump : Bool
  pub fee_bump_txid : Option T.Txid

module _ {T : BdkTypes} (L : BuilderLib T) where
  -- The fields that `TxBuilder::new` writes, once the default ordering is converted.
  unfoldable pub fresh : ℕ → TxOrdering → TxBuilder T
  fresh wallet ordering = record {
    wallet = wallet;
    recipients = [];
    utxos = [];
    unspendable = [];
    fee_policy = FeePolicy.rate (fee_rate_new L.fees 1);
    drain_wallet = false;
    drain_to = none;
    allow_dust = false;
    ordering = ordering;
    min_confirmations = none;
    change_policy = none;
    only_spend_from = false;
    nlocktime = none;
    version = none;
    current_height = none;
    only_witness_utxo = false;
    include_output_redeem_witness_script = false;
    add_global_xpubs = false;
    exact_sequence = none;
    data_bytes = none;
    is_fee_bump = false;
    fee_bump_txid = none;
  }

  -- `TxBuilder::new`
  unfoldable pub builder_new : ℕ → Outcome (TxBuilder T)
  unfolding fresh ordering_from_bdk
  builder_new wallet = elim (ordering_from_bdk L.default_ordering) [
    | returned ordering ↦ returned (fresh wallet ordering)
    | panicked message ↦ panicked message
  ]

  -- `TxBuilder::new_fee_bump`
  unfoldable pub builder_new_fee_bump : ℕ → T.Txid → Outcome (TxBuilder T)
  unfolding builder_new
  builder_new_fee_bump wallet txid = elim (builder_new wallet) [
    | returned b ↦ returned (record b { is_fee_bump = Bool.true; fee_bump_txid = some txid })
    | panicked message ↦ panicked message
  ]
