-- ===== src/Wallet/Read.antt =====
-- The methods that borrow the wallet without changing it.
use bdk_wasm.Base.{ℕ, ◌/◌, String, Bool, Option, List, map, map_option, Outcome, ok}
use bdk_wasm.Base.Results.{JsResult, js_error, map_ok, map_outcome}
use bdk_wasm.Base.RefCell.{Heap, with_borrow, call_ref}
use bdk_wasm.Bdk.Opaque.{BdkTypes}
use bdk_wasm.Bdk.Builder.{BuilderLib}
use bdk_wasm.Bdk.Wallet.{WalletLib}
use bdk_wasm.Types.Wrapper.{Wrapper, wrap, deref, into_inner}
use bdk_wasm.Types.Network.{Network, NetworkKind, network_from_bdk, kind_of_bdk_network}
use bdk_wasm.Types.Keychain.{KeychainKind, SpkIndexed, keychain_from_bdk, keychain_into_bdk}
use bdk_wasm.Types.Amount.{Amount, ScriptBuf}
use bdk_wasm.Types.Fee.{FeeRate}
use bdk_wasm.Types.Output.{Txid, OutPoint}
use bdk_wasm.Types.Psbt.{Psbt}
use bdk_wasm.Types.Event.{Transaction}

pub record SentAndReceived (T : BdkTypes) : Type 0 where
  pub sent : Amount T
  pub received : Amount T

module _ {T : BdkTypes} {L : BuilderLib T} (V : WalletLib L) where
  -- What a method returns, with the heap after it.
  abbrev pub Reads : Type 0 → Type 0
  Reads A = Heap L.Wallet → Outcome A × Heap L.Wallet

  -- `Wallet::start_full_scan`; `now` is `Date::now()`, in milliseconds.
  unfoldable pub start_full_scan : ℕ → ℕ → Reads (Wrapper V.FullScanRequest)
  start_full_scan now h = call_ref h (λ w. wrap (V.start_full_scan_at w (now / 1000)))

  -- `Wallet::start_sync_with_revealed_spks`
  unfoldable pub start_sync_with_revealed_spks : ℕ → ℕ → Reads (Wrapper V.SyncRequest)
  start_sync_with_revealed_spks now h =
      call_ref h (λ w. wrap (V.start_sync_with_revealed_spks_at w (now / 1000)))

  -- `Wallet::network`
  unfoldable pub network : ℕ → Reads Network
  network h = call_ref h (λ w. network_from_bdk (V.network w))

  -- `Wallet::network_kind`
  unfoldable pub network_kind : ℕ → Reads NetworkKind
  network_kind h = call_ref h (λ w. kind_of_bdk_network (V.network w))

  -- `Wallet::balance`
  unfoldable pub balance : ℕ → Reads (Wrapper V.Balance)
  balance h = call_ref h (λ w. wrap (V.balance w))

  -- `Wallet::peek_address`
  unfoldable pub peek_address : ℕ → KeychainKind → ℕ → Reads (Wrapper V.AddressInfo)
  peek_address h keychain index =
      with_borrow h (λ w. map_outcome wrap (V.peek_address w (keychain_into_bdk keychain) index))

  -- `Wallet::list_unused_addresses`
  unfoldable pub list_unused_addresses : ℕ → KeychainKind → Reads (List (Wrapper V.AddressInfo))
  list_unused_addresses h keychain =
      call_ref h (λ w. map wrap (V.list_unused_addresses w (keychain_into_bdk keychain)))

  -- `Wallet::list_unspent`
  unfoldable pub list_unspent : ℕ → Reads (List (Wrapper V.LocalOutput))
  list_unspent h = call_ref h (λ w. map wrap (V.list_unspent w))

  -- `Wallet::list_output`
  unfoldable pub list_output : ℕ → Reads (List (Wrapper V.LocalOutput))
  list_output h = call_ref h (λ w. map wrap (V.list_output w))

  -- `Wallet::get_utxo`
  unfoldable pub get_utxo : ℕ → OutPoint T → Reads (Option (Wrapper V.LocalOutput))
  get_utxo h op = call_ref h (λ w. map_option wrap (V.get_utxo w (into_inner op)))

  -- `Wallet::transactions`
  unfoldable pub transactions : ℕ → Reads (List (Wrapper V.WalletTx))
  transactions h = call_ref h (λ w. map wrap (V.transactions w))

  -- `Wallet::get_tx`
  unfoldable pub get_tx : ℕ → Txid T → Reads (Option (Wrapper V.WalletTx))
  get_tx h txid = call_ref h (λ w. map_option wrap (V.get_tx w (into_inner txid)))

  -- `Wallet::latest_checkpoint`
  unfoldable pub latest_checkpoint : ℕ → Reads (Wrapper V.CheckPoint)
  latest_checkpoint h = call_ref h (λ w. wrap (V.latest_checkpoint w))

  -- `Wallet::checkpoints`
  unfoldable pub checkpoints : ℕ → Reads (List (Wrapper V.CheckPoint))
  checkpoints h = call_ref h (λ w. map wrap (V.checkpoints w))

  -- `Wallet::public_descriptor`
  unfoldable pub public_descriptor : ℕ → KeychainKind → Reads String
  public_descriptor h keychain =
      call_ref h (λ w. V.public_descriptor w (keychain_into_bdk keychain))

  -- `Wallet::descriptor_checksum`
  unfoldable pub descriptor_checksum : ℕ → KeychainKind → Reads String
  descriptor_checksum h keychain =
      call_ref h (λ w. V.descriptor_checksum w (keychain_into_bdk keychain))

  -- `Wallet::derivation_index`
  unfoldable pub derivation_index : ℕ → KeychainKind → Reads (Option ℕ)
  derivation_index h keychain = call_ref h (λ w. V.derivation_index w (keychain_into_bdk keychain))

  -- `Wallet::next_derivation_index`
  unfoldable pub next_derivation_index : ℕ → KeychainKind → Reads ℕ
  next_derivation_index h keychain =
      call_ref h (λ w. V.next_derivation_index w (keychain_into_bdk keychain))

  -- `Wallet::sign`, with the PSBT that it leaves in its argument.
  unfoldable pub sign : ℕ → Psbt T → Wrapper V.SignOptions → Reads (JsResult Bool × Psbt T)
  sign h psbt options = call_ref h (λ w.
      let (r, signed) = V.sign w (deref psbt) (into_inner options) in (js_error r, wrap signed))

  -- `Wallet::finalize_psbt`
  unfoldable pub finalize_psbt : ℕ → Psbt T → Wrapper V.SignOptions → Reads (JsResult Bool × Psbt T)
  finalize_psbt h psbt options = call_ref h (λ w.
      let (r, finalized) = V.finalize_psbt w (deref psbt) (into_inner options) in
      (js_error r, wrap finalized))

  -- `Wallet::calculate_fee`
  unfoldable pub calculate_fee : ℕ → Transaction T → Reads (JsResult (Amount T))
  calculate_fee h tx = call_ref h (λ w. map_ok wrap (js_error (V.calculate_fee w (deref tx))))

  -- `Wallet::calculate_fee_rate`
  unfoldable pub calculate_fee_rate : ℕ → Transaction T → Reads (JsResult (FeeRate T))
  calculate_fee_rate h tx =
      call_ref h (λ w. map_ok wrap (js_error (V.calculate_fee_rate w (deref tx))))

  -- `Wallet::sent_and_received`
  unfoldable pub sent_and_received : ℕ → Transaction T → Reads (JsResult (SentAndReceived T))
  sent_and_received h tx = call_ref h (λ w.
      let (sent, received) = V.sent_and_received w (deref tx) in
      ok (record { sent = wrap sent; received = wrap received }))

  -- `Wallet::is_mine`
  unfoldable pub is_mine : ℕ → ScriptBuf T → Reads Bool
  is_mine h script = call_ref h (λ w. V.is_mine w (into_inner script))

  -- `Wallet::derivation_of_spk`
  unfoldable pub derivation_of_spk : ℕ → ScriptBuf T → Reads (Option SpkIndexed)
  derivation_of_spk h spk = call_ref h (λ w.
      map_option (λ d. record { keychain = keychain_from_bdk d.0; index = d.1 })
        (V.derivation_of_spk w (into_inner spk)))

  -- `Wallet::tx_details`
  unfoldable pub tx_details : ℕ → Txid T → Reads (Option (Wrapper V.TxDetails))
  tx_details h txid = call_ref h (λ w. map_option wrap (V.tx_details w (into_inner txid)))
