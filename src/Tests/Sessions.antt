-- ===== src/Tests/Sessions.antt =====
-- A session on the stand-in's wallets.
use bdk_wasm.Base.{
  ℕ, ◌+◌, ◌-◌, ◌≡◌, ◌⊎◌, refl, inl, String, Bool, true, false, none, some, List, [], ◌∷◌,
}
use bdk_wasm.Base.{ok, err, returned, panicked, ltb, lt→ltb, All, if◌then◌else◌, arith}
use bdk_wasm.TxBuilder.Finish.Panics.{FitsHeight}
use bdk_wasm.Wallet.Session.Steps.{IsProper}
use bdk_wasm.Base.RefCell.{Borrow, Heap, with_borrow, with_borrow_mut}
use bdk_wasm.Wallet.Read
use bdk_wasm.Wallet.Change
use bdk_wasm.Wallet.Session.Panics.{session_follows}
use bdk_wasm.Bdk.Kinds.{BdkNetwork}
use bdk_wasm.Bdk.Errors.{ApplyHeaderError}
use bdk_wasm.Bdk.Wallet.{WalletLib, max_index, PeeksIndices}
use bdk_wasm.Types.Wrapper.{wrap}
use bdk_wasm.Types.Keychain.{KeychainKind}
use bdk_wasm.TxBuilder.{TxBuilder, TxOrdering, fresh, builder_new}
use bdk_wasm.TxBuilder.History.{Setter, apply_setter, build}
use bdk_wasm.Types.Network.{Network, network_into_bdk}
use bdk_wasm.Wallet.Create.{
  create_single, create, create_from_two_path_descriptor, load_params, load,
}
use bdk_wasm.Wallet.Create.Laws.{made, found, IsStored, constructors_store}
use bdk_wasm.Wallet.Session.{Query, Command, Call, Log}
use bdk_wasm.Wallet.Session.Perform.{session}
use bdk_wasm.Wallet.Session.Plain.{plain_session}
use bdk_wasm.Wallet.Session.Laws.{session_refines}
use bdk_wasm.Wallet.Session.Isolation.{entries_on, log_on, session_isolates}
use bdk_wasm.Tests.Samples.{types, host, lib, lib-TakesHeights}

abbrev pub wallets : WalletLib lib
wallets = record {
  AddressInfo = String;
  Balance = ℕ;
  Block = String;
  ChangeSet = String;
  CheckPoint = ℕ;
  FullScanRequest = ℕ;
  LoadParams = String;
  LocalOutput = String;
  SignOptions = Bool;
  SyncRequest = ℕ;
  TxDetails = String;
  TxOut = ℕ;
  Update = ℕ;
  WalletTx = String;
  create_single = λ _ _. ok 0;
  create = λ _ _ _. ok 0;
  create_from_two_path_descriptor = λ _ _. err "no second path";
  load = "";
  descriptor = λ _ _ p. p;
  extract_keys = λ p. p;
  load_wallet_no_persist = λ _ _. ok none;
  start_full_scan_at = λ _ t. t;
  start_sync_with_revealed_spks_at = λ _ t. t;
  network = λ _. BdkNetwork.signet;
  balance = λ w. w;
  peek_address = λ _ _ index.
      if ltb index max_index then returned "address" else panicked "index is out of range";
  list_unused_addresses = λ _ _. [];
  list_unspent = λ _. [];
  list_output = λ _. [];
  get_utxo = λ _ _. none;
  transactions = λ _. [];
  get_tx = λ _ _. none;
  latest_checkpoint = λ w. w;
  checkpoints = λ w. w ∷ [];
  public_descriptor = λ _ _. "descriptor";
  descriptor_checksum = λ _ _. "checksum";
  derivation_index = λ _ _. none;
  next_derivation_index = λ w _. w;
  sign = λ _ psbt _. (ok true, psbt);
  finalize_psbt = λ _ psbt _. (ok true, psbt);
  calculate_fee = λ _ _. err "missing output";
  calculate_fee_rate = λ _ _. err "missing output";
  sent_and_received = λ w _. (w, w);
  is_mine = λ _ _. true;
  derivation_of_spk = λ _ _. none;
  tx_details = λ _ _. none;
  apply_update = λ u w. (ok tt, w + u);
  apply_update_events = λ u w. (ok [], w + u);
  next_unused_address = λ _ w. ("address", w);
  reveal_next_address = λ _ w. ("address", w + 1);
  reveal_addresses_to = λ _ n w. ([], w + n);
  take_staged = λ w. (none, w);
  mark_used = λ _ _ w. (true, w);
  unmark_used = λ _ _ w. (false, w);
  insert_txout = λ _ n w. w + n;
  cancel_tx = λ _ w. w - 1;
  apply_unconfirmed_txs = λ _ w. w;
  apply_evicted_txs = λ _ w. w;
  apply_block_events = λ _ height w. (ok [], w + height);
  apply_block_connected_to_events = λ _ _ _ w. (err ApplyHeaderError.inconsistent_blocks, w);
}

abbrev pub start : TxBuilder types
start = fresh lib 1 TxOrdering.shuffle

start_new : builder_new lib 1 ≡ returned start
unfolding builder_new
start_new = refl

-- Two wallets: the first reveals an address, the second makes a transaction, and the first is asked
-- for an address and its balance and applies a block.
abbrev pub calls : List (ℕ × Call wallets)
calls =
    (0, Call.command (Command.reveal_next_address KeychainKind.external))
    ∷ (1, Call.finish_of start (Setter.drain_wallet ∷ Setter.current_height 800000 ∷ []))
    ∷ (0, Call.query (Query.peek_address KeychainKind.external 2147483647))
    ∷ (0, Call.query Query.balance)
    ∷ (0, Call.command (Command.apply_block_events (wrap "block") 7))
    ∷ []

finish_fits : FitsHeight (build (Setter.drain_wallet ∷ Setter.current_height 800000 ∷ []) start)
unfolding build apply_setter fresh
finish_fits n normal given = ground arith

pub calls-IsProper : All (IsProper wallets) calls
calls-IsProper = (tt, ((inl start_new, finish_fits), (omega arith, (tt, (tt, tt)))))

pub wallets-PeeksIndices : PeeksIndices wallets
wallets-PeeksIndices w k n h = ("address", rw (lt→ltb n max_index h))

abbrev pub heap : Heap ℕ
heap i = record { value = i; state = Borrow.unused }

session_refines_example :
    let (r, after) = session host wallets calls heap in
    let (s, ends) = plain_session host calls (λ i. i) in
    ((log : Log wallets) × (r ≡ returned log))
    × (r ≡ s)
    × ((i : ℕ) → (after i).state ≡ Borrow.unused)
    × ((i : ℕ) → (after i).value ≡ ends i)
session_refines_example =
    session_refines host wallets lib-TakesHeights wallets-PeeksIndices calls heap calls-IsProper
      (λ _. refl)

-- The second call is out of range, so that the third is not made.
abbrev panicking : List (ℕ × Call wallets)
panicking =
    (0, Call.command (Command.reveal_next_address KeychainKind.external))
    ∷ (0, Call.query (Query.peek_address KeychainKind.external 2147483648))
    ∷ (1, Call.finish_of start [])
    ∷ []

panicking_panics : (session host wallets panicking heap).0 ≡ panicked "index is out of range"
unfolding Change.reveal_next_address Read.peek_address with_borrow with_borrow_mut
panicking_panics = refl

session_follows_example :
    let (r, after) = session host wallets panicking heap in
    let (s, ends) = plain_session host panicking (λ i. i) in
    (r ≡ s)
    × ((i : ℕ) → (after i).value ≡ ends i)
    × (((m : String) × (r ≡ panicked m)) ⊎ ((i : ℕ) → (after i).state ≡ Borrow.unused))
unfolding fresh
session_follows_example =
    session_follows host wallets panicking heap (tt, (tt, (refl, tt))) (λ _. refl)

constructors_store_example :
    IsStored
      (made (wallets.create_single "d" BdkNetwork.signet))
      4
      heap
      (create_single wallets 4 Network.signet "d" heap)
    × IsStored
        (made (wallets.create "d" "c" BdkNetwork.signet))
        4
        heap
        (create wallets 4 Network.signet "d" "c" heap)
    × IsStored
        (made (wallets.create_from_two_path_descriptor "d" BdkNetwork.signet))
        4
        heap
        (create_from_two_path_descriptor wallets 4 Network.signet "d" heap)
    × IsStored
        (found (
          wallets.load_wallet_no_persist "changes"
            (wallets.extract_keys (load_params wallets none (some "c")))))
        4
        heap
        (load wallets 4 (wrap "changes") none (some "c") heap)
unfolding network_into_bdk
constructors_store_example =
    constructors_store wallets 4 Network.signet "d" "c" (wrap "changes") none (some "c") heap

ended : (log : Log wallets) × ((session host wallets calls heap).0 ≡ returned log)
ended =
    (session_refines host wallets lib-TakesHeights wallets-PeeksIndices calls heap calls-IsProper
      (λ _. refl)).0

-- The first wallet, without the calls on the second.
session_isolates_example :
    let (r, after) = session host wallets calls heap in
    let (s, alone) = session host wallets (entries_on 0 calls) heap in
    (log_on 0 r ≡ s) × ((after 0).value ≡ (alone 0).value)
unfolding fresh
session_isolates_example =
    session_isolates host wallets 0 calls heap ended.0 (tt, (refl, (tt, (tt, (tt, tt)))))
      (λ _. refl) ended.1
