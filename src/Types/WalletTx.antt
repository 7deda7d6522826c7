-- ===== src/Types/WalletTx.antt =====
-- src/bitcoin/wallet_tx.rs: the wallet's transactions, and those that are handed to it before they
-- are confirmed.
use bdk_wasm.Base.{ℕ, Option, List, map}
use bdk_wasm.Bdk.Opaque.{BdkTypes, BdkConfirmationBlockTime}
use bdk_wasm.Bdk.Chain.{BdkChainPosition}
use bdk_wasm.Bdk.Transactions.{BdkWalletTx}
use bdk_wasm.Types.Wrapper.{wrap, into_inner}
use bdk_wasm.Types.Output.{Txid}
use bdk_wasm.Types.Block.{ConfirmationBlockTime}
use bdk_wasm.Types.Chain.{ChainPosition}
use bdk_wasm.Types.Event.{Transaction}

pub record UnconfirmedTx (T : BdkTypes) : Type 0 where
  pub tx : Transaction T
  pub last_seen : ℕ

-- `UnconfirmedTx::new`
unfoldable pub unconfirmed_tx_new : {T : BdkTypes} → Transaction T → ℕ → UnconfirmedTx T
unconfirmed_tx_new tx last_seen = record { tx = tx; last_seen = last_seen }

-- `From<UnconfirmedTx> for (Arc<BdkTransaction>, u64)`
abbrev pub unconfirmed_into_pair : {T : BdkTypes} → UnconfirmedTx T → T.Transaction × ℕ
unconfirmed_into_pair u = (into_inner u.tx, u.last_seen)

pub record WalletTx (T : BdkTypes) : Type 0 where
  pub txid : T.Txid
  pub tx : T.Transaction
  pub anchors : List (BdkConfirmationBlockTime T)
  pub last_seen : Option ℕ
  pub first_seen : Option ℕ
  pub chain_position : BdkChainPosition T

module _ {T : BdkTypes} where
  -- `From<BdkWalletTx> for WalletTx`
  unfoldable pub wallet_tx_from_bdk : BdkWalletTx T → WalletTx T
  wallet_tx_from_bdk x = record {
    txid = x.tx_node.txid;
    tx = x.tx_node.tx;
    anchors = x.tx_node.anchors;
    last_seen = x.tx_node.last_seen;
    first_seen = x.tx_node.first_seen;
    chain_position = x.chain_position;
  }

  -- `WalletTx::txid`
  unfoldable pub wallet_tx_txid : WalletTx T → Txid T
  wallet_tx_txid d = wrap d.txid

  -- `WalletTx::tx`
  unfoldable pub wallet_tx_tx : WalletTx T → Transaction T
  wallet_tx_tx d = wrap d.tx

  -- `WalletTx::anchors`
  unfoldable pub wallet_tx_anchors : WalletTx T → List (ConfirmationBlockTime T)
  wallet_tx_anchors d = map wrap d.anchors

  -- `WalletTx::last_seen`
  unfoldable pub wallet_tx_last_seen : WalletTx T → Option ℕ
  wallet_tx_last_seen d = d.last_seen

  -- `WalletTx::first_seen`
  unfoldable pub wallet_tx_first_seen : WalletTx T → Option ℕ
  wallet_tx_first_seen d = d.first_seen

  -- `WalletTx::chain_position`
  unfoldable pub wallet_tx_chain_position : WalletTx T → ChainPosition T
  wallet_tx_chain_position d = wrap d.chain_position

  -- `UnconfirmedTx::tx`
  unfoldable pub unconfirmed_tx : UnconfirmedTx T → Transaction T
  unconfirmed_tx u = u.tx

  -- `UnconfirmedTx::last_seen`
  unfoldable pub unconfirmed_last_seen : UnconfirmedTx T → ℕ
  unconfirmed_last_seen u = u.last_seen
