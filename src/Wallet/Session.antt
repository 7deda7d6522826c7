-- ===== src/Wallet/Session.antt =====
-- Sessions: sequences of calls on the wallets of a heap, in any order and on any handles. A panic
-- ends a session, since the compiled module aborts.
pub mod Perform
pub mod Plain
pub mod Steps
pub mod Laws
pub mod Isolation
pub mod Panics
use bdk_wasm.Base.{
  ℕ, ◌/◌, ◌≡◌, refl, ap, fun_ext, ◌∙◌, String, Bool, Option, All, List, [], ◌∷◌, map, map_option,
  Result, ok, Outcome, returned, panicked, ◌==◌, if◌then◌else◌, arith,
}
use bdk_wasm.Base.Results.{JsResult, js_error, map_ok, map_err}
use bdk_wasm.Base.RefCell.{Borrow, Heap, with_borrow_mut, with_borrow, call_mut, call_ref}
use bdk_wasm.Bdk.Opaque.{BdkTypes}
use bdk_wasm.Bdk.Builder.{BuilderLib}
use bdk_wasm.Bdk.Wallet.{WalletLib}
use bdk_wasm.Types.Wrapper.{Wrapper, wrap, deref, into_inner}
use bdk_wasm.Types.Error.{BdkError, Host}
use bdk_wasm.Types.Network.{Network, NetworkKind, network_from_bdk, kind_of_bdk_network}
use bdk_wasm.Types.Keychain.{KeychainKind, SpkIndexed, keychain_from_bdk, keychain_into_bdk}
use bdk_wasm.Types.Amount.{Amount, ScriptBuf}
use bdk_wasm.Types.Fee.{FeeRate}
use bdk_wasm.Types.Output.{Txid, OutPoint}
use bdk_wasm.Types.Psbt.{Psbt}
use bdk_wasm.Types.Block.{BlockId, EvictedTx}
use bdk_wasm.Types.Event.{WalletEvent, Transaction}
use bdk_wasm.Types.WalletTx.{UnconfirmedTx, unconfirmed_into_pair}
use bdk_wasm.TxBuilder.{TxBuilder}
use bdk_wasm.TxBuilder.Finish.{finish_on, finish}
use bdk_wasm.TxBuilder.Finish.Panics.{
  MadeFrom, HasMode, HasMode-returns, new-HasMode, build-HasMode, finish_returns,
}
use bdk_wasm.TxBuilder.History.{Setter, build}
use bdk_wasm.Wallet.Errors.{from_cannot_connect_error, from_apply_header_error}
use bdk_wasm.Wallet.Read
use bdk_wasm.Wallet.Change
use bdk_wasm.Wallet.Read.{SentAndReceived}
use bdk_wasm.Wallet.Change.{evicted_into_pair}

-- The methods that only read; the first two take the time.
pub data Query {T : BdkTypes} {L : BuilderLib T} (V : WalletLib L) : Type 0 where
  start_full_scan : ℕ → Query V
  start_sync_with_revealed_spks : ℕ → Query V
  network : Query V
  network_kind : Query V
  balance : Query V
  peek_address : KeychainKind → ℕ → Query V
  list_unused_addresses : KeychainKind → Query V
  list_unspent : Query V
  list_output : Query V
  get_utxo : OutPoint T → Query V
  transactions : Query V
  get_tx : Txid T → Query V
  latest_checkpoint : Query V
  checkpoints : Query V
  public_descriptor : KeychainKind → Query V
  descriptor_checksum : KeychainKind → Query V
  derivation_index : KeychainKind → Query V
  next_derivation_index : KeychainKind → Query V
  sign : Psbt T → Wrapper V.SignOptions → Query V
  finalize_psbt : Psbt T → Wrapper V.SignOptions → Query V
  calculate_fee : Transaction T → Query V
  calculate_fee_rate : Transaction T → Query V
  sent_and_received : Transaction T → Query V
  is_mine : ScriptBuf T → Query V
  derivation_of_spk : ScriptBuf T → Query V
  tx_details : Txid T → Query V

-- The methods that change the wallet.
pub data Command {T : BdkTypes} {L : BuilderLib T} (V : WalletLib L) : Type 0 where
  apply_update : Wrapper V.Update → Command V
  apply_update_events : Wrapper V.Update → Command V
  next_unused_address : KeychainKind → Command V
  reveal_next_address : KeychainKind → Command V
  reveal_addresses_to : KeychainKind → ℕ → Command V
  take_staged : Command V
  mark_used : KeychainKind → ℕ → Command V
  unmark_used : KeychainKind → ℕ → Command V
  insert_txout : OutPoint T → Wrapper V.TxOut → Command V
  cancel_tx : Transaction T → Command V
  apply_unconfirmed_txs : List (UnconfirmedTx T) → Command V
  apply_evicted_txs : List (EvictedTx T) → Command V
  apply_block_events : Wrapper V.Block → ℕ → Command V
  apply_block_connected_to_events : Wrapper V.Block → ℕ → BlockId T → Command V

-- A call of a method, or of the `finish` of a builder on which setters were called.
pub data Call {T : BdkTypes} {L : BuilderLib T} (V : WalletLib L) : Type 0 where
  query : Query V → Call V
  command : Command V → Call V
  finish_of : TxBuilder T → List (Setter T) → Call V

module _ {T : BdkTypes} {L : BuilderLib T} {V : WalletLib L} where
  -- What a query returns.
  abbrev pub AnswerOf : Query V → Type 0
  AnswerOf (Query.start_full_scan _) = Wrapper V.FullScanRequest
  AnswerOf (Query.start_sync_with_revealed_spks _) = Wrapper V.SyncRequest
  AnswerOf Query.network = Network
  AnswerOf Query.network_kind = NetworkKind
  AnswerOf Query.balance = Wrapper V.Balance
  AnswerOf (Query.peek_address _ _) = Wrapper V.AddressInfo
  AnswerOf (Query.list_unused_addresses _) = List (Wrapper V.AddressInfo)
  AnswerOf Query.list_unspent = List (Wrapper V.LocalOutput)
  AnswerOf Query.list_output = List (Wrapper V.LocalOutput)
  AnswerOf (Query.get_utxo _) = Option (Wrapper V.LocalOutput)
  AnswerOf Query.transactions = List (Wrapper V.WalletTx)
  AnswerOf (Query.get_tx _) = Option (Wrapper V.WalletTx)
  AnswerOf Query.latest_checkpoint = Wrapper V.CheckPoint
  AnswerOf Query.checkpoints = List (Wrapper V.CheckPoint)
  AnswerOf (Query.public_descriptor _) = String
  AnswerOf (Query.descriptor_checksum _) = String
  AnswerOf (Query.derivation_index _) = Option ℕ
  AnswerOf (Query.next_derivation_index _) = ℕ
  AnswerOf (Query.sign _ _) = JsResult Bool × Psbt T
  AnswerOf (Query.finalize_psbt _ _) = JsResult Bool × Psbt T
  AnswerOf (Query.calculate_fee _) = JsResult (Amount T)
  AnswerOf (Query.calculate_fee_rate _) = JsResult (FeeRate T)
  AnswerOf (Query.sent_and_received _) = JsResult (SentAndReceived T)
  AnswerOf (Query.is_mine _) = Bool
  AnswerOf (Query.derivation_of_spk _) = Option SpkIndexed
  AnswerOf (Query.tx_details _) = Option (Wrapper V.TxDetails)

  -- What a command returns.
  abbrev pub ReportOf : Command V → Type 0
  ReportOf (Command.apply_update _) = JsResult (Unit {0})
  ReportOf (Command.apply_update_events _) = JsResult (List (WalletEvent T))
  ReportOf (Command.next_unused_address _) = Wrapper V.AddressInfo
  ReportOf (Command.reveal_next_address _) = Wrapper V.AddressInfo
  ReportOf (Command.reveal_addresses_to _ _) = List (Wrapper V.AddressInfo)
  ReportOf Command.take_staged = Option (Wrapper V.ChangeSet)
  ReportOf (Command.mark_used _ _) = Bool
  ReportOf (Command.unmark_used _ _) = Bool
  ReportOf (Command.insert_txout _ _) = Unit {0}
  ReportOf (Command.cancel_tx _) = Unit {0}
  ReportOf (Command.apply_unconfirmed_txs _) = Unit {0}
  ReportOf (Command.apply_evicted_txs _) = Unit {0}
  ReportOf (Command.apply_block_events _ _) = Result (BdkError T) (List (WalletEvent T))
  ReportOf (Command.apply_block_connected_to_events _ _ _) =
      Result (BdkError T) (List (WalletEvent T))

  -- What a call returns.
  abbrev pub ReturnOf : Call V → Type 0
  ReturnOf (Call.query q) = AnswerOf q
  ReturnOf (Call.command c) = ReportOf c
  ReturnOf (Call.finish_of _ _) = Result (BdkError T) (Psbt T)

-- What a session returns: the handle, the call and what it returned, for each call.
abbrev pub Log : {T : BdkTypes} {L : BuilderLib T} → WalletLib L → Type 0
Log V = List (ℕ × ((c : Call V) × ReturnOf c))

-- One more entry in front of what the rest of a session returns.
abbrev pub entered :
    {T : BdkTypes} {L : BuilderLib T} {V : WalletLib L}
    → ℕ × ((c : Call V) × ReturnOf c)
    → Outcome (Log V)
    → Outcome (Log V)
entered entry (returned log) = returned (entry ∷ log)
entered entry (panicked message) = panicked message
