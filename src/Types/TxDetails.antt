-- ===== src/Types/TxDetails.antt =====
-- src/types/tx_details.rs: the details of a transaction of the wallet.
use bdk_wasm.Base.{Option, map_option}
use bdk_wasm.Base.Int.{ℤ}
use bdk_wasm.Bdk.Opaque.{BdkTypes}
use bdk_wasm.Bdk.Chain.{BdkChainPosition}
use bdk_wasm.Bdk.Transactions.{BdkTxDetails}
use bdk_wasm.Types.Wrapper.{wrap}
use bdk_wasm.Types.Amount.{Amount}
use bdk_wasm.Types.Fee.{FeeRate}
use bdk_wasm.Types.Output.{Txid}
use bdk_wasm.Types.Chain.{ChainPosition}
use bdk_wasm.Types.Event.{Transaction}

pub record TxDetails (T : BdkTypes) : Type 0 where
  pub txid : T.Txid
  pub sent : T.Amount
  pub received : T.Amount
  pub fee : Option T.Amount
  pub fee_rate : Option T.FeeRate
  pub balance_delta_sat : ℤ
  pub chain_position : BdkChainPosition T
  pub tx : T.Transaction

module _ {T : BdkTypes} where
  -- `From<BdkTxDetails> for TxDetails`
  unfoldable pub details_from_bdk : BdkTxDetails T → TxDetails T
  details_from_bdk x = record {
    txid = x.txid;
    sent = x.sent;
    received = x.received;
    fee = x.fee;
    fee_rate = x.fee_rate;
    balance_delta_sat = x.balance_delta;
    chain_position = x.chain_position;
    tx = x.tx;
  }

  -- `TxDetails::txid`
  unfoldable pub details_txid : TxDetails T → Txid T
  details_txid d = wrap d.txid

  -- `TxDetails::sent`
  unfoldable pub details_sent : TxDetails T → Amount T
  details_sent d = wrap d.sent

  -- `TxDetails::received`
  unfoldable pub details_received : TxDetails T → Amount T
  details_received d = wrap d.received

  -- `TxDetails::fee`
  unfoldable pub details_fee : TxDetails T → Option (Amount T)
  details_fee d = map_option wrap d.fee

  -- `TxDetails::fee_rate`
  unfoldable pub details_fee_rate : TxDetails T → Option (FeeRate T)
  details_fee_rate d = map_option wrap d.fee_rate

  -- `TxDetails::balance_delta_sat`
  unfoldable pub details_balance_delta_sat : TxDetails T → ℤ
  details_balance_delta_sat d = d.balance_delta_sat

  -- `TxDetails::chain_position`
  unfoldable pub details_chain_position : TxDetails T → ChainPosition T
  details_chain_position d = wrap d.chain_position

  -- `TxDetails::tx`
  unfoldable pub details_tx : TxDetails T → Transaction T
  details_tx d = wrap d.tx
