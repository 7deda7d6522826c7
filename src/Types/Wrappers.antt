-- ===== src/Types/Wrappers.antt =====
-- The wrappers whose conversions are written out in the source and not made by the macro: block and
-- output references, outputs, inputs, blocks, addresses, events and the options for signing. A
-- conversion from a reference, and `clone`, copy the value.
use bdk_wasm.Bdk.Opaque.{BdkTypes, BdkOutPoint, BdkBlockId, BdkConfirmationBlockTime}
use bdk_wasm.Bdk.Addresses.{AddressLib, BdkAddressInfo}
use bdk_wasm.Bdk.Bitcoin.{TxLib}
use bdk_wasm.Bdk.Chain.{BdkWalletEvent}
use bdk_wasm.Bdk.Signing.{BdkSignOptions}
use bdk_wasm.Bdk.Values.{BlockLib, BdkLocalOutput}
use bdk_wasm.Types.Wrapper.{wrap}
use bdk_wasm.Types.Address.Methods.{Address, AddressInfo}
use bdk_wasm.Types.Amount.{Amount, ScriptBuf}
use bdk_wasm.Types.Block.{BlockId, ConfirmationBlockTime}
use bdk_wasm.Types.Block.Contents.{Block}
use bdk_wasm.Types.Event.{WalletEvent, Transaction}
use bdk_wasm.Types.LocalOutput.{LocalOutput}
use bdk_wasm.Types.Output.{OutPoint}
use bdk_wasm.Types.Psbt.{Psbt, Recipient}
use bdk_wasm.Types.Transaction.{TxIn, TxOut}
use bdk_wasm.Wallet.SignOptions.{SignOptions, sign_options_new}

module _ {T : BdkTypes} where
  -- `From<BdkBlockId> for BlockId`
  abbrev pub block_id_from_bdk : BdkBlockId T → BlockId T
  block_id_from_bdk inner = wrap inner

  -- `From<BlockId> for BdkBlockId`
  abbrev pub block_id_into_bdk : BlockId T → BdkBlockId T
  block_id_into_bdk (wrap inner) = inner

  -- `Deref for ConfirmationBlockTime`
  abbrev pub confirmation_deref : ConfirmationBlockTime T → BdkConfirmationBlockTime T
  confirmation_deref (wrap inner) = inner

  -- `From<&BdkConfirmationBlockTime> for ConfirmationBlockTime`
  abbrev pub confirmation_from_ref : BdkConfirmationBlockTime T → ConfirmationBlockTime T
  confirmation_from_ref inner = wrap inner

  -- `From<ConfirmationBlockTime> for BdkConfirmationBlockTime`
  abbrev pub confirmation_into_bdk : ConfirmationBlockTime T → BdkConfirmationBlockTime T
  confirmation_into_bdk (wrap inner) = inner

  -- `Deref for OutPoint`
  abbrev pub outpoint_deref : OutPoint T → BdkOutPoint T
  outpoint_deref (wrap inner) = inner

  -- `From<BdkOutPoint> for OutPoint`
  abbrev pub outpoint_from_bdk : BdkOutPoint T → OutPoint T
  outpoint_from_bdk inner = wrap inner

  -- `From<OutPoint> for BdkOutPoint`
  abbrev pub outpoint_into_bdk : OutPoint T → BdkOutPoint T
  outpoint_into_bdk (wrap inner) = inner

  -- `From<BdkWalletEvent> for WalletEvent`
  abbrev pub event_from_bdk : BdkWalletEvent T → WalletEvent T
  event_from_bdk inner = wrap inner

  -- `Recipient::script_pubkey`
  unfoldable pub recipient_script_pubkey : Recipient T → ScriptBuf T
  recipient_script_pubkey r = wrap r.script_pubkey

  -- `Recipient::amount`
  unfoldable pub recipient_amount : Recipient T → Amount T
  recipient_amount r = wrap r.amount

module _ (T : BdkTypes) where
  -- `Transaction::js_clone`
  abbrev pub transaction_clone : Transaction T → Transaction T
  transaction_clone value = value

  -- `Psbt::js_clone`
  abbrev pub psbt_clone : Psbt T → Psbt T
  psbt_clone value = value

  -- `ScriptBuf::js_clone`
  abbrev pub script_clone : ScriptBuf T → ScriptBuf T
  script_clone value = value

  -- `DerefMut for Psbt`: what is done to the inner value, done in place.
  abbrev pub psbt_deref_mut : (T.Psbt → T.Psbt) → Psbt T → Psbt T
  psbt_deref_mut f (wrap inner) = wrap (f inner)

module _ {T : BdkTypes} {TxOut : Type 0} where
  -- `Deref for LocalOutput`
  abbrev pub local_output_deref : LocalOutput T TxOut → BdkLocalOutput T TxOut
  local_output_deref (wrap inner) = inner

  -- `From<BdkLocalOutput> for LocalOutput`
  abbrev pub local_output_from_bdk : BdkLocalOutput T TxOut → LocalOutput T TxOut
  local_output_from_bdk inner = wrap inner

  -- `From<LocalOutput> for BdkLocalOutput`
  abbrev pub local_output_into_bdk : LocalOutput T TxOut → BdkLocalOutput T TxOut
  local_output_into_bdk (wrap inner) = inner

module _ {T : BdkTypes} (L : TxLib T) where
  -- `Deref for TxOut`
  abbrev pub tx_out_deref : TxOut L → L.TxOut
  tx_out_deref (wrap inner) = inner

  -- `From<BdkTxOut> for TxOut`
  abbrev pub tx_out_from_bdk : L.TxOut → TxOut L
  tx_out_from_bdk inner = wrap inner

  -- `From<&BdkTxOut> for TxOut`
  abbrev pub tx_out_from_ref : L.TxOut → TxOut L
  tx_out_from_ref inner = wrap inner

  -- `From<TxOut> for BdkTxOut`
  abbrev pub tx_out_into_bdk : TxOut L → L.TxOut
  tx_out_into_bdk (wrap inner) = inner

  -- `Deref for TxIn`
  abbrev pub tx_in_deref : TxIn L → L.TxIn
  tx_in_deref (wrap inner) = inner

  -- `From<BdkTxIn> for TxIn`
  abbrev pub tx_in_from_bdk : L.TxIn → TxIn L
  tx_in_from_bdk inner = wrap inner

  -- `From<&BdkTxIn> for TxIn`
  abbrev pub tx_in_from_ref : L.TxIn → TxIn L
  tx_in_from_ref inner = wrap inner

  -- `From<TxIn> for BdkTxIn`
  abbrev pub tx_in_into_bdk : TxIn L → L.TxIn
  tx_in_into_bdk (wrap inner) = inner

module _ {T : BdkTypes} (L : BlockLib T) where
  -- `Deref for Block`
  abbrev pub block_deref : Block L → L.Block
  block_deref (wrap inner) = inner

  -- `From<BdkBlock> for Block`
  abbrev pub block_from_bdk : L.Block → Block L
  block_from_bdk inner = wrap inner

  -- `From<Block> for BdkBlock`
  abbrev pub block_into_bdk : Block L → L.Block
  block_into_bdk (wrap inner) = inner

module _ {T : BdkTypes} (L : AddressLib T) where
  -- `Deref for Address`
  abbrev pub address_deref : Address L → L.Address
  address_deref (wrap inner) = inner

  -- `From<BdkAddress> for Address`
  abbrev pub address_from_bdk : L.Address → Address L
  address_from_bdk inner = wrap inner

  -- `From<Address> for BdkAddress`
  abbrev pub address_into_bdk : Address L → L.Address
  address_into_bdk (wrap inner) = inner

  -- `Address::js_clone`
  abbrev pub address_clone : Address L → Address L
  address_clone value = value

  -- `Deref for AddressInfo`
  abbrev pub address_info_deref : AddressInfo L → BdkAddressInfo L
  address_info_deref (wrap inner) = inner

  -- `From<BdkAddressInfo> for AddressInfo`
  abbrev pub address_info_from_bdk : BdkAddressInfo L → AddressInfo L
  address_info_from_bdk inner = wrap inner

  -- `AddressInfo::js_clone`
  abbrev pub address_info_clone : AddressInfo L → AddressInfo L
  address_info_clone value = value

-- `From<SignOptions> for BdkSignOptions`
abbrev pub sign_options_into_bdk : SignOptions → BdkSignOptions
sign_options_into_bdk (wrap options) = options

-- `Default for SignOptions`, over bdk_wallet's default.
abbrev pub sign_options_default : BdkSignOptions → SignOptions
sign_options_default default = sign_options_new default
