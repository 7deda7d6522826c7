-- ===== src/Bdk/Wallet.antt =====
-- bdk_wallet's `Wallet`, as an interface over the wallet state of `BuilderLib`. A method that takes
-- `&mut self` returns the new state; an error is given by its text where the crate only shows it.
use bdk_wasm.Base.{ℕ, ◌<◌, ◌^◌, ◌≡◌, String, Bool, Option, List, Result, Outcome, returned}
use bdk_wasm.Bdk.Kinds.{BdkNetwork, BdkKeychainKind}
use bdk_wasm.Bdk.Opaque.{BdkTypes, BdkOutPoint, BdkBlockId}
use bdk_wasm.Bdk.Errors.{CannotConnectError, ApplyHeaderError}
use bdk_wasm.Bdk.Builder.{BuilderLib}
use bdk_wasm.Bdk.Chain.{BdkWalletEvent}

pub record WalletLib {T : BdkTypes} (L : BuilderLib T) : Type 1 where
  pub AddressInfo : Type 0
  pub Balance : Type 0
  pub Block : Type 0
  pub ChangeSet : Type 0
  pub CheckPoint : Type 0
  pub FullScanRequest : Type 0
  pub LoadParams : Type 0
  pub LocalOutput : Type 0
  pub SignOptions : Type 0
  pub SyncRequest : Type 0
  pub TxDetails : Type 0
  pub TxOut : Type 0
  pub Update : Type 0
  pub WalletTx : Type 0
  -- Making a wallet: the builder with its network, and `create_wallet_no_persist`.
  pub create_single : String → BdkNetwork → Result String L.Wallet
  pub create : String → String → BdkNetwork → Result String L.Wallet
  pub create_from_two_path_descriptor : String → BdkNetwork → Result String L.Wallet
  pub load : LoadParams
  pub descriptor : BdkKeychainKind → Option String → LoadParams → LoadParams
  pub extract_keys : LoadParams → LoadParams
  pub load_wallet_no_persist : ChangeSet → LoadParams → Result String (Option L.Wallet)
  -- Reading it. The requests take the time in seconds.
  pub start_full_scan_at : L.Wallet → ℕ → FullScanRequest
  pub start_sync_with_revealed_spks_at : L.Wallet → ℕ → SyncRequest
  pub network : L.Wallet → BdkNetwork
  pub balance : L.Wallet → Balance
  -- Panics on an index that BIP32 does not have.
  pub peek_address : L.Wallet → BdkKeychainKind → ℕ → Outcome AddressInfo
  pub list_unused_addresses : L.Wallet → BdkKeychainKind → List AddressInfo
  pub list_unspent : L.Wallet → List LocalOutput
  pub list_output : L.Wallet → List LocalOutput
  pub get_utxo : L.Wallet → BdkOutPoint T → Option LocalOutput
  pub transactions : L.Wallet → List WalletTx
  pub get_tx : L.Wallet → T.Txid → Option WalletTx
  pub latest_checkpoint : L.Wallet → CheckPoint
  pub checkpoints : L.Wallet → List CheckPoint
  pub public_descriptor : L.Wallet → BdkKeychainKind → String
  pub descriptor_checksum : L.Wallet → BdkKeychainKind → String
  pub derivation_index : L.Wallet → BdkKeychainKind → Option ℕ
  pub next_derivation_index : L.Wallet → BdkKeychainKind → ℕ
  pub sign : L.Wallet → T.Psbt → SignOptions → Result String Bool × T.Psbt
  pub finalize_psbt : L.Wallet → T.Psbt → SignOptions → Result String Bool × T.Psbt
  pub calculate_fee : L.Wallet → T.Transaction → Result String T.Amount
  pub calculate_fee_rate : L.Wallet → T.Transaction → Result String T.FeeRate
  pub sent_and_received : L.Wallet → T.Transaction → T.Amount × T.Amount
  pub is_mine : L.Wallet → T.Script → Bool
  pub derivation_of_spk : L.Wallet → T.Script → Option (BdkKeychainKind × ℕ)
  pub tx_details : L.Wallet → T.Txid → Option TxDetails
  -- Changing it.
  pub apply_update : Update → L.Wallet → Result String (Unit {0}) × L.Wallet
  pub apply_update_events : Update → L.Wallet → Result String (List (BdkWalletEvent T)) × L.Wallet
  pub next_unused_address : BdkKeychainKind → L.Wallet → AddressInfo × L.Wallet
  pub reveal_next_address : BdkKeychainKind → L.Wallet → AddressInfo × L.Wallet
  pub reveal_addresses_to : BdkKeychainKind → ℕ → L.Wallet → List AddressInfo × L.Wallet
  pub take_staged : L.Wallet → Option ChangeSet × L.Wallet
  pub mark_used : BdkKeychainKind → ℕ → L.Wallet → Bool × L.Wallet
  pub unmark_used : BdkKeychainKind → ℕ → L.Wallet → Bool × L.Wallet
  pub insert_txout : BdkOutPoint T → TxOut → L.Wallet → L.Wallet
  pub cancel_tx : T.Transaction → L.Wallet → L.Wallet
  pub apply_unconfirmed_txs : List (T.Transaction × ℕ) → L.Wallet → L.Wallet
  pub apply_evicted_txs : List (T.Txid × ℕ) → L.Wallet → L.Wallet
  pub apply_block_events :
      Block → ℕ → L.Wallet → Result (CannotConnectError T) (List (BdkWalletEvent T)) × L.Wallet
  pub apply_block_connected_to_events :
      Block
      → ℕ
      → BdkBlockId T
      → L.Wallet
      → Result (ApplyHeaderError T) (List (BdkWalletEvent T)) × L.Wallet

-- The indices of BIP32 that are not hardened.
abbrev pub max_index : ℕ
max_index = 2 ^ 31

abbrev pub PeeksIndices : {T : BdkTypes} {L : BuilderLib T} → WalletLib L → Type 0
PeeksIndices {L = L} V =
    (w : L.Wallet) (k : BdkKeychainKind) (n : ℕ)
    → n < max_index
    → (a : V.AddressInfo) × (V.peek_address w k n ≡ returned a)
