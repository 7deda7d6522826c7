-- ===== src/Bdk/Builder.antt =====
-- bdk_wallet's own transaction builder, which borrows the wallet that it was made from until it
-- is finished or dropped, as an interface over unknown states.
use bdk_wasm.Base.{
  ℕ, ◌<◌, ◌^◌, ◌≡◌, ◌≢◌, Bool, Option, none, List, Result, ok, err, Outcome, returned, length,
}
use bdk_wasm.Base.Int.{ℤ}
use bdk_wasm.Bdk.Kinds.{BdkTxOrdering, BdkChangeSpendPolicy}
use bdk_wasm.Bdk.Opaque.{BdkTypes, BdkOutPoint}
use bdk_wasm.Bdk.Fees.{FeeLib}
use bdk_wasm.Bdk.Errors.{AddUtxoError, BuildFeeBumpError, CreateTxError}

pub record BuilderLib (T : BdkTypes) : Type 1 where
  pub Wallet : Type 0
  pub Builder : Type 0
  pub LockTime : Type 0
  pub PushBytes : Type 0
  pub default_ordering : BdkTxOrdering
  pub fees : FeeLib T
  pub from_consensus : ℕ → LockTime
  pub push_bytes : List ℕ → Option PushBytes
  pub build_tx : Wallet → Builder
  -- A refusal gives the wallet back.
  pub build_fee_bump : Wallet → T.Txid → Result (BuildFeeBumpError T × Wallet) Builder
  -- The wallet that is left when the builder is dropped.
  pub wallet_of : Builder → Wallet
  pub ordering : BdkTxOrdering → Builder → Builder
  pub set_recipients : List (T.Script × T.Amount) → Builder → Builder
  pub unspendable : List (BdkOutPoint T) → Builder → Builder
  pub allow_dust : Bool → Builder → Builder
  pub fee_rate : T.FeeRate → Builder → Builder
  pub fee_absolute : T.Amount → Builder → Builder
  pub add_utxos : List (BdkOutPoint T) → Builder → Option (AddUtxoError T) × Builder
  pub manually_selected_only : Builder → Builder
  pub exclude_below_confirmations : ℕ → Builder → Builder
  pub change_policy : BdkChangeSpendPolicy → Builder → Builder
  pub drain_wallet : Builder → Builder
  pub drain_to : T.Script → Builder → Builder
  pub nlocktime : LockTime → Builder → Builder
  pub version : ℤ → Builder → Builder
  -- Panics on a height that no lock time holds.
  pub current_height : ℕ → Builder → Outcome Builder
  pub only_witness_utxo : Builder → Builder
  pub include_output_redeem_witness_script : Builder → Builder
  pub add_global_xpubs : Builder → Builder
  pub set_exact_sequence : ℕ → Builder → Builder
  pub add_data : PushBytes → Builder → Builder
  pub finish : Builder → Result (CreateTxError T) T.Psbt × Wallet

-- What is relied on: setting an option leaves the borrowed wallet alone, and so does the
-- start of a fee bump; a push of data holds any byte string below 2 ^ 32 bytes.
pub record IsLawful {T : BdkTypes} (L : BuilderLib T) : Type 0 where
  pub build_tx_wallet : (w : L.Wallet) → L.wallet_of (L.build_tx w) ≡ w
  pub refused_wallet :
      (w v : L.Wallet) (t : T.Txid) (e : BuildFeeBumpError T)
      → L.build_fee_bump w t ≡ err (e, v)
      → v ≡ w
  pub accepted_wallet :
      (w : L.Wallet) (t : T.Txid) (x : L.Builder) → L.build_fee_bump w t ≡ ok x → L.wallet_of x ≡ w
  pub ordering_wallet :
      (o : BdkTxOrdering) (b : L.Builder) → L.wallet_of (L.ordering o b) ≡ L.wallet_of b
  pub set_recipients_wallet :
      (rs : List (T.Script × T.Amount)) (b : L.Builder)
      → L.wallet_of (L.set_recipients rs b) ≡ L.wallet_of b
  pub unspendable_wallet :
      (os : List (BdkOutPoint T)) (b : L.Builder) → L.wallet_of (L.unspendable os b) ≡ L.wallet_of b
  pub allow_dust_wallet :
      (d : Bool) (b : L.Builder) → L.wallet_of (L.allow_dust d b) ≡ L.wallet_of b
  pub fee_rate_wallet :
      (r : T.FeeRate) (b : L.Builder) → L.wallet_of (L.fee_rate r b) ≡ L.wallet_of b
  pub fee_absolute_wallet :
      (a : T.Amount) (b : L.Builder) → L.wallet_of (L.fee_absolute a b) ≡ L.wallet_of b
  pub add_utxos_wallet :
      (os : List (BdkOutPoint T)) (b : L.Builder) → L.wallet_of (L.add_utxos os b).1 ≡ L.wallet_of b
  pub manually_selected_only_wallet :
      (b : L.Builder) → L.wallet_of (L.manually_selected_only b) ≡ L.wallet_of b
  pub exclude_below_confirmations_wallet :
      (n : ℕ) (b : L.Builder) → L.wallet_of (L.exclude_below_confirmations n b) ≡ L.wallet_of b
  pub change_policy_wallet :
      (p : BdkChangeSpendPolicy) (b : L.Builder) → L.wallet_of (L.change_policy p b) ≡ L.wallet_of b
  pub drain_wallet_wallet : (b : L.Builder) → L.wallet_of (L.drain_wallet b) ≡ L.wallet_of b
  pub drain_to_wallet :
      (s : T.Script) (b : L.Builder) → L.wallet_of (L.drain_to s b) ≡ L.wallet_of b
  pub nlocktime_wallet :
      (t : L.LockTime) (b : L.Builder) → L.wallet_of (L.nlocktime t b) ≡ L.wallet_of b
  pub version_wallet : (v : ℤ) (b : L.Builder) → L.wallet_of (L.version v b) ≡ L.wallet_of b
  pub current_height_wallet :
      (n : ℕ) (b c : L.Builder) → L.current_height n b ≡ returned c → L.wallet_of c ≡ L.wallet_of b
  pub only_witness_utxo_wallet :
      (b : L.Builder) → L.wallet_of (L.only_witness_utxo b) ≡ L.wallet_of b
  pub include_output_redeem_witness_script_wallet :
      (b : L.Builder) → L.wallet_of (L.include_output_redeem_witness_script b) ≡ L.wallet_of b
  pub add_global_xpubs_wallet : (b : L.Builder) → L.wallet_of (L.add_global_xpubs b) ≡ L.wallet_of b
  pub set_exact_sequence_wallet :
      (n : ℕ) (b : L.Builder) → L.wallet_of (L.set_exact_sequence n b) ≡ L.wallet_of b
  pub add_data_wallet :
      (d : L.PushBytes) (b : L.Builder) → L.wallet_of (L.add_data d b) ≡ L.wallet_of b
  pub push_bytes_fits : (bytes : List ℕ) → length bytes < 2 ^ 32 → L.push_bytes bytes ≢ none

-- A lock time holds the heights below 500000000: a lock time from there on is a time.
abbrev pub max_height : ℕ
max_height = 500000000

abbrev pub TakesHeights : {T : BdkTypes} → BuilderLib T → Type 0
TakesHeights L =
    (n : ℕ) (b : L.Builder) → n < max_height → (c : L.Builder) × (L.current_height n b ≡ returned c)
