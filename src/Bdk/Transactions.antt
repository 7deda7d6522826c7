-- ===== src/Bdk/Transactions.antt =====
-- bdk_wallet's `WalletTx` and `TxDetails`, by the fields that the crate copies. A set of anchors is
-- the list of its elements in order.
use bdk_wasm.Base.{ℕ, Option, List}
use bdk_wasm.Base.Int.{ℤ}
use bdk_wasm.Bdk.Opaque.{BdkTypes, BdkConfirmationBlockTime}
use bdk_wasm.Bdk.Chain.{BdkChainPosition}

pub record BdkTxNode (T : BdkTypes) : Type 0 where
  pub txid : T.Txid
  pub tx : T.Transaction
  pub anchors : List (BdkConfirmationBlockTime T)
  pub last_seen : Option ℕ
  pub first_seen : Option ℕ

pub record BdkWalletTx (T : BdkTypes) : Type 0 where
  pub tx_node : BdkTxNode T
  pub chain_position : BdkChainPosition T

-- `SignedAmount` is the number of satoshis that its `to_sat` gives.
pub record BdkTxDetails (T : BdkTypes) : Type 0 where
  pub txid : T.Txid
  pub sent : T.Amount
  pub received : T.Amount
  pub fee : Option T.Amount
  pub fee_rate : Option T.FeeRate
  pub balance_delta : ℤ
  pub chain_position : BdkChainPosition T
  pub tx : T.Transaction
