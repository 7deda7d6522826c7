-- ===== src/TxBuilder/Finish.antt =====
-- `TxBuilder::finish`: the options are replayed on bdk_wallet's builder, in the order of the code.
pub mod Steps
mod Keeping
pub mod Refusals
pub mod FeeBump
pub mod Panics
pub mod Codes
use Prim.Native.String.{◌++◌ as ◌<>◌}
use bdk_wasm.Base.{ℕ, String, Bool, Option, none, some, List, map, Result, ok, err}
use bdk_wasm.Base.{Outcome, returned, panicked, length, is_empty, ltb, if◌then◌else◌}
use bdk_wasm.Base.Decimal.{decimal}
use bdk_wasm.Base.Results.{map_ok, map_err}
use bdk_wasm.Base.RefCell.{Heap, with_borrow_mut}
use bdk_wasm.Bdk.Opaque.{BdkTypes}
use bdk_wasm.Bdk.Builder.{BuilderLib}
use bdk_wasm.Types.Wrapper.{wrap, into_inner}
use bdk_wasm.Types.Error.{BdkErrorCode, BdkError, Host, Payload, new_error}
use bdk_wasm.Types.Psbt.{Psbt, recipient_into_pair}
use bdk_wasm.TxBuilder.{TxBuilder, FeePolicy, ordering_into_bdk, policy_into_bdk}
use bdk_wasm.TxBuilder.Errors.{from_add_utxo_error, from_build_fee_bump_error, from_create_tx_error}

-- `if flag { builder.option(); }`
abbrev pub set_if {ℓ} : {B : Type ℓ} → Bool → (B → B) → B → B
set_if flag option b = if flag then option b else b

-- `if let Some(a) = field { builder.option(a); }`
abbrev pub set_some {ℓ κ} : {A : Type ℓ} {B : Type κ} → Option A → (A → B → B) → B → B
set_some none option b = b
set_some (some a) option b = option a b

-- The same for an option that may panic.
abbrev pub try_some {ℓ κ} :
    {A : Type ℓ} {B : Type κ} → Option A → (A → B → Outcome B) → B → Outcome B
try_some none option b = returned b
try_some (some a) option b = option a b

module _ {T : BdkTypes} (L : BuilderLib T) where
  open L use {Wallet, Builder}

  -- `match self.fee_policy`, the same in both modes.
  unfoldable pub apply_fee_policy : FeePolicy T → Builder → Builder
  apply_fee_policy (FeePolicy.rate r) = L.fee_rate (into_inner r)
  apply_fee_policy (FeePolicy.absolute a) = L.fee_absolute (into_inner a)

  -- The calls between `build_fee_bump` and `finish`.
  unfoldable pub configure_fee_bump : TxBuilder T → Builder → Builder
  unfolding apply_fee_policy ordering_into_bdk
  configure_fee_bump b x =
      let x1 = apply_fee_policy b.fee_policy x in
      let x2 = L.allow_dust b.allow_dust (L.ordering (ordering_into_bdk b.ordering) x1) in
      let x3 = set_if b.only_witness_utxo L.only_witness_utxo x2 in
      let x4 =
        set_if b.include_output_redeem_witness_script L.include_output_redeem_witness_script x3 in
      set_if b.add_global_xpubs L.add_global_xpubs x4

  -- The calls from `build_tx` up to the fee.
  unfoldable pub configure_first : TxBuilder T → Builder → Builder
  unfolding apply_fee_policy ordering_into_bdk
  configure_first b x =
      let x1 = L.ordering (ordering_into_bdk b.ordering) x in
      let x2 = L.set_recipients (map recipient_into_pair b.recipients) x1 in
      let x3 = L.unspendable (map into_inner b.unspendable) x2 in
      apply_fee_policy b.fee_policy (L.allow_dust b.allow_dust x3)

  -- The calls after the UTXOs are added, up to the version.
  unfoldable pub configure_rest : TxBuilder T → Builder → Builder
  unfolding policy_into_bdk
  configure_rest b x =
      let x1 = set_if b.only_spend_from L.manually_selected_only x in
      let x2 = set_some b.min_confirmations L.exclude_below_confirmations x1 in
      let x3 = set_some b.change_policy (λ p. L.change_policy (policy_into_bdk p)) x2 in
      let x4 = set_if b.drain_wallet L.drain_wallet x3 in
      let x5 = set_some b.drain_to (λ s. L.drain_to (into_inner s)) x4 in
      let x6 = set_some b.nlocktime (λ n. L.nlocktime (L.from_consensus n)) x5 in
      set_some b.version L.version x6

  -- The calls after the height, up to the data.
  unfoldable pub configure_last : TxBuilder T → Builder → Builder
  configure_last b x =
      let x1 = set_if b.only_witness_utxo L.only_witness_utxo x in
      let x2 =
        set_if b.include_output_redeem_witness_script L.include_output_redeem_witness_script x1 in
      let x3 = set_if b.add_global_xpubs L.add_global_xpubs x2 in
      set_some b.exact_sequence L.set_exact_sequence x3

module _ {T : BdkTypes} (H : Host T) (L : BuilderLib T) where
  open L use {Wallet, Builder}

  -- What `finish` gives back, with the wallet after it.
  abbrev pub Finished : Type 0
  Finished = Outcome (Result (BdkError T) (Psbt T)) × Wallet

  -- `let psbt = builder.finish()?; Ok(psbt.into())`
  unfoldable pub finish_builder : Builder → Finished
  finish_builder x =
      let (r, w) = L.finish x in (returned (map_ok wrap (map_err (from_create_tx_error H) r)), w)

  -- The error for data of more than 80 bytes.
  abbrev pub too_long_error : List ℕ → BdkError T
  too_long_error bytes =
      new_error H BdkErrorCode.unexpected
        ("OP_RETURN data exceeds 80 bytes (got " <> decimal (length bytes) <> ")") Payload.unit

  -- The error for data that no push can hold.
  abbrev pub push_limit_error : BdkError T
  push_limit_error =
      new_error H BdkErrorCode.unexpected "OP_RETURN data exceeds script push limit" Payload.unit

  -- `if let Some(data) = &self.data`, and the end of the function.
  unfoldable pub finish_data : Option (List ℕ) → Builder → Finished
  finish_data none x = finish_builder x
  finish_data (some bytes) x =
      if ltb 80 (length bytes)
      then (returned (err (too_long_error bytes)), L.wallet_of x)
      else elim (L.push_bytes bytes) [
        | none ↦ (returned (err push_limit_error), L.wallet_of x)
        | some push_bytes ↦ finish_builder (L.add_data push_bytes x)
      ]

  -- What follows the outpoints: a panic of `current_height` drops the builder.
  unfoldable pub finish_rest : TxBuilder T → Builder → Finished
  finish_rest b x =
      let y = configure_rest L b x in
      elim (try_some b.current_height L.current_height y) [
        | returned z ↦ finish_data b.data_bytes (configure_last L b z)
        | panicked message ↦ (panicked message, L.wallet_of y)
      ]

  -- `if !self.utxos.is_empty()`, and what follows if the wallet knows them all.
  unfoldable pub finish_utxos : TxBuilder T → Builder → Finished
  finish_utxos b x =
      if is_empty b.utxos
      then finish_rest b x
      else let (refused, y) = L.add_utxos (map into_inner b.utxos) x in
        elim refused [
          | none ↦ finish_rest b y
          | some e ↦ (returned (err (from_add_utxo_error H e)), L.wallet_of y)
        ]

  -- The branch for a fee bump.
  unfoldable pub finish_fee_bump : TxBuilder T → T.Txid → Wallet → Finished
  finish_fee_bump b txid w = elim (L.build_fee_bump w txid) [
    | ok x ↦ finish_builder (configure_fee_bump L b x)
    | err (e, v) ↦ (returned (err (from_build_fee_bump_error H e)), v)
  ]

  -- The body of `finish`, on the borrowed wallet.
  unfoldable pub finish_on : TxBuilder T → Wallet → Finished
  finish_on b w =
      if b.is_fee_bump
      then elim b.fee_bump_txid [
        | none ↦ (panicked "fee bump txid must be set", w)
        | some txid ↦ finish_fee_bump b txid w
      ]
      else finish_utxos b (configure_first L b (L.build_tx w))

  -- `TxBuilder::finish`
  unfoldable pub finish :
      TxBuilder T → Heap Wallet → Outcome (Result (BdkError T) (Psbt T)) × Heap Wallet
  finish b heap = with_borrow_mut b.wallet (finish_on b) heap
