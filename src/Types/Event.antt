-- ===== src/Types/Event.antt =====
-- src/types/event.rs: the kind of a wallet event and its getters.
pub mod Laws
use bdk_wasm.Base.{Option, none, some}
use bdk_wasm.Bdk.Opaque.{BdkTypes}
use bdk_wasm.Bdk.Chain.{BdkWalletEvent}
use bdk_wasm.Types.Wrapper.{Wrapper, wrap}
use bdk_wasm.Types.Output.{Txid}
use bdk_wasm.Types.Block.{BlockId, ConfirmationBlockTime}

-- The kind of an event. `invalid` is as in Types/Network.antt; no event has it.
pub data WalletEventKind : Type 0 where
  chain_tip_changed tx_confirmed tx_unconfirmed tx_replaced tx_dropped invalid : WalletEventKind

abbrev pub WalletEvent : BdkTypes → Type 0
WalletEvent T = Wrapper (BdkWalletEvent T)

abbrev pub Transaction : BdkTypes → Type 0
Transaction T = Wrapper T.Transaction

module _ {T : BdkTypes} where
  -- `WalletEvent::kind`
  unfoldable pub event_kind : WalletEvent T → WalletEventKind
  event_kind (wrap (BdkWalletEvent.chain_tip_changed _ _)) = WalletEventKind.chain_tip_changed
  event_kind (wrap (BdkWalletEvent.tx_confirmed _ _ _ _)) = WalletEventKind.tx_confirmed
  event_kind (wrap (BdkWalletEvent.tx_unconfirmed _ _ _)) = WalletEventKind.tx_unconfirmed
  event_kind (wrap (BdkWalletEvent.tx_replaced _ _ _)) = WalletEventKind.tx_replaced
  event_kind (wrap (BdkWalletEvent.tx_dropped _ _ _)) = WalletEventKind.tx_dropped
  event_kind _ = WalletEventKind.chain_tip_changed

  -- `WalletEvent::txid`
  unfoldable pub event_txid : WalletEvent T → Option (Txid T)
  event_txid (wrap (BdkWalletEvent.tx_confirmed txid _ _ _)) = some (wrap txid)
  event_txid (wrap (BdkWalletEvent.tx_unconfirmed txid _ _)) = some (wrap txid)
  event_txid (wrap (BdkWalletEvent.tx_replaced txid _ _)) = some (wrap txid)
  event_txid (wrap (BdkWalletEvent.tx_dropped txid _ _)) = some (wrap txid)
  event_txid _ = none

  -- `WalletEvent::tx`
  unfoldable pub event_tx : WalletEvent T → Option (Transaction T)
  event_tx (wrap (BdkWalletEvent.tx_confirmed _ tx _ _)) = some (wrap tx)
  event_tx (wrap (BdkWalletEvent.tx_unconfirmed _ tx _)) = some (wrap tx)
  event_tx (wrap (BdkWalletEvent.tx_replaced _ tx _)) = some (wrap tx)
  event_tx (wrap (BdkWalletEvent.tx_dropped _ tx _)) = some (wrap tx)
  event_tx _ = none

  -- `WalletEvent::old_tip`
  unfoldable pub event_old_tip : WalletEvent T → Option (BlockId T)
  event_old_tip (wrap (BdkWalletEvent.chain_tip_changed old_tip _)) = some (wrap old_tip)
  event_old_tip _ = none

  -- `WalletEvent::new_tip`
  unfoldable pub event_new_tip : WalletEvent T → Option (BlockId T)
  event_new_tip (wrap (BdkWalletEvent.chain_tip_changed _ new_tip)) = some (wrap new_tip)
  event_new_tip _ = none

  -- `WalletEvent::block_time`
  unfoldable pub event_block_time : WalletEvent T → Option (ConfirmationBlockTime T)
  event_block_time (wrap (BdkWalletEvent.tx_confirmed _ _ block_time _)) = some (wrap block_time)
  event_block_time _ = none

  -- `WalletEvent::old_block_time`
  unfoldable pub event_old_block_time : WalletEvent T → Option (ConfirmationBlockTime T)
  event_old_block_time (wrap (BdkWalletEvent.tx_confirmed _ _ _ (some bt))) = some (wrap bt)
  event_old_block_time (wrap (BdkWalletEvent.tx_unconfirmed _ _ (some bt))) = some (wrap bt)
  event_old_block_time _ = none
