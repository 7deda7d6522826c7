-- ===== src/Esplora/Workflow/Laws.antt =====
-- A full scan and a sync, over whatever else is done with the wallets meanwhile.
use bdk_wasm.Base.{
  ℕ, ◌/◌, ◌≡◌, refl, ap, fun_ext, ◌∙◌, String, All, List, Result, ok, err, Outcome, returned, ◌==◌,
  if◌then◌else◌, arith,
}
use bdk_wasm.Base.Results.{JsResult, js_error, map_ok}
use bdk_wasm.Base.RefCell.{Borrow, Heap}
use bdk_wasm.Bdk.Opaque.{BdkTypes}
use bdk_wasm.Bdk.Builder.{BuilderLib, TakesHeights}
use bdk_wasm.Bdk.Wallet.{WalletLib, PeeksIndices}
use bdk_wasm.Bdk.Esplora.{EsploraLib}
use bdk_wasm.Types.Wrapper.{Wrapper, wrap}
use bdk_wasm.Types.Error.{Host}
use bdk_wasm.Esplora.Client.{
  EsploraClient, full_scan, sync, update_from_full_scan, update_from_sync,
}
use bdk_wasm.Esplora.Workflow.{
  Updated, apply_fetched, update_by, take_answer, scan_wallet, sync_wallet,
}
use bdk_wasm.Wallet.Change.{apply_update}
use bdk_wasm.Wallet.Session.{Query, Command, Call, AnswerOf, Log}
use bdk_wasm.Wallet.Session.Perform.{ask, session}
use bdk_wasm.Wallet.Session.Plain.{answer, change, plain_session}
use bdk_wasm.Wallet.Session.Steps.{
  DoesTo, DoesTo-free, DoesTo-value, IsProper, ask-DoesTo, command-DoesTo,
}
use bdk_wasm.Wallet.Session.Laws.{session_refines}

module _ {T : BdkTypes} {L : BuilderLib T} (V : WalletLib L) {World : Type 0} where
  -- The run returned `r`, left the wallets `ends` but for the one behind `h`, which became `w`, and
  -- the world as `world`.
  abbrev pub EndsIn :
      ℕ → (ℕ → L.Wallet) → JsResult (Unit {0}) × L.Wallet → World → Updated V World → Type 0
  EndsIn h ends (r, w) world (out, heap, after) =
      (out ≡ returned r)
      × ((i : ℕ) → (heap i).value ≡ (if i == h then w else ends i))
      × ((i : ℕ) → (heap i).state ≡ Borrow.unused)
      × (after ≡ world)

module _ {T : BdkTypes} (H : Host T) {L : BuilderLib T} (V : WalletLib L) {World : Type 0} where
  update_by_lem :
      (q : Query V) (fetch : AnswerOf q → World → JsResult (Wrapper V.Update) × World) (h : ℕ)
      (others : List (ℕ × Call V)) (heap : Heap L.Wallet) (world : World) (request : AnswerOf q)
      (log : Log V)
      → (ask V h q heap).0 ≡ returned request
      → (session H V others (ask V h q heap).1).0 ≡ returned log
      → update_by H V q fetch h others heap world
        ≡ apply_fetched V h (session H V others (ask V h q heap).1).1 (fetch request world)
  update_by_lem q fetch h others heap world request log e all = rw (e, all, update_by)

  apply_fetched-EndsIn :
      (h : ℕ) (ends : ℕ → L.Wallet) (heap : Heap L.Wallet) (a : Result String V.Update)
      (world : World)
      → ((i : ℕ) → (heap i).state ≡ Borrow.unused)
      → ((i : ℕ) → (heap i).value ≡ ends i)
      → EndsIn V h ends
          (take_answer V a (ends h))
          world
          (apply_fetched V h heap (map_ok wrap (js_error a), world))
  apply_fetched-EndsIn h ends heap (err e) world free same =
      (refl, λ i. ground (arith, same i), free, refl)
  apply_fetched-EndsIn h ends heap (ok update) world free same =
      let c : Command V = Command.apply_update (wrap update) in
      let f : L.Wallet → Outcome (JsResult (Unit {0})) × L.Wallet =
        λ w. (returned (change H c w).0, (change H c w).1) in
      let out = apply_update V h (wrap update) heap in
      let done : DoesTo h f heap out = command-DoesTo H V h c heap (free h) in
      (
        done.0 ∙ ap (λ w. returned (change H c w).0) (same h),
        λ i. DoesTo-value h f heap out done i ∙ rw (same h, same i),
        DoesTo-free h f heap out done free,
        refl,
      )

module _ {T : BdkTypes} (H : Host T) {L : BuilderLib T} (V : WalletLib L) (takes : TakesHeights L)
    (peeks : PeeksIndices V) {World : Type 0} where
  -- The same for any request and any way to have it answered.
  update_by-EndsIn :
      (q : Query V) (ask_for : L.Wallet → AnswerOf q)
      (fetch : AnswerOf q → World → JsResult (Wrapper V.Update) × World)
      (get : L.Wallet → Result String V.Update × World) (h : ℕ) (others : List (ℕ × Call V))
      (heap : Heap L.Wallet) (world : World)
      → ((w : L.Wallet) → answer q w ≡ returned (ask_for w))
      → ((w : L.Wallet) → fetch (ask_for w) world ≡ (map_ok wrap (js_error (get w).0), (get w).1))
      → All (IsProper V) others
      → ((i : ℕ) → (heap i).state ≡ Borrow.unused)
      → let (a, after) = get (heap h).value in
        let ends = (plain_session H others (λ i. (heap i).value)).1 in
        EndsIn V h ends (take_answer V a (ends h)) after (update_by H V q fetch h others heap world)
  update_by-EndsIn q ask_for fetch get h others heap world asked answers own free =
      let f : L.Wallet → Outcome (AnswerOf q) × L.Wallet = λ w. (answer q w, w) in
      let out = ask V h q heap in
      let done : DoesTo h f heap out = ask-DoesTo V h q heap _ (asked (heap h).value) (free h) in
      let asked_only : (λ i. (out.1 i).value) ≡ (λ i. (heap i).value) =
        fun_ext (λ i. DoesTo-value h f heap out done i ∙ ground arith) in
      let ((log, all), _, idle, values) =
        session_refines H V takes peeks others out.1 own (DoesTo-free h f heap out done free) in
      rw
        (
          update_by_lem H V q fetch h others heap world (ask_for (heap h).value) log
              (done.0 ∙ asked (heap h).value) all,
          answers (heap h).value,
        )
        (apply_fetched-EndsIn H V h _ (session H V others out.1).1 (get (heap h).value).0
          (get (heap h).value).1 idle
          (λ i. values i ∙ ap (λ ws. (plain_session H others ws).1 i) asked_only))

js_error-map_ok :
    {A B : Type 0} (f : A → B) (r : Result String A)
    → map_ok (λ a. wrap (f a)) (js_error r) ≡ map_ok wrap (js_error (map_ok f r))
js_error-map_ok f (ok a) = refl
js_error-map_ok f (err message) = refl

module _ {T : BdkTypes} {L : BuilderLib T} {V : WalletLib L} {F : Type 0} (E : EsploraLib V F)
    (c : EsploraClient E) (world : E.World) where
  full_scan_answers :
      (request : V.FullScanRequest) (stop_gap parallel_requests : ℕ)
      → let (r, after) = E.full_scan c.client request stop_gap parallel_requests world in
        full_scan E c (wrap request) stop_gap parallel_requests world
        ≡ (map_ok wrap (js_error (map_ok E.full_scan_update r)), after)
  unfolding full_scan update_from_full_scan
  full_scan_answers request stop_gap parallel_requests =
      let (r, after) = E.full_scan c.client request stop_gap parallel_requests world in
      ap (λ a. (a, after)) (js_error-map_ok E.full_scan_update r)

  sync_answers :
      (request : V.SyncRequest) (parallel_requests : ℕ)
      → let (r, after) = E.sync c.client request parallel_requests world in
        sync E c (wrap request) parallel_requests world
        ≡ (map_ok wrap (js_error (map_ok E.sync_update r)), after)
  unfolding sync update_from_sync
  sync_answers request parallel_requests =
      let (r, after) = E.sync c.client request parallel_requests world in
      ap (λ a. (a, after)) (js_error-map_ok E.sync_update r)

module _ {T : BdkTypes} (H : Host T) {L : BuilderLib T} {V : WalletLib L} {F : Type 0}
    (E : EsploraLib V F) (takes : TakesHeights L) (peeks : PeeksIndices V) where
  -- A full scan, and a sync, of a free wallet ends without a panic, whatever other calls are made on
  -- whatever free wallets while the server is asked, if the builders among them come from the
  -- wallets that they are finished for and have no height of 500000000 or more, the indices of
  -- peeked addresses are below 2 ^ 31, and bdk_wallet takes such heights and indices. The request shows the wallet as it was at the start, with the
  -- start's time in whole seconds. The update is applied to the wallet as the other calls left it,
  -- and no other wallet is changed by it; an error of the server is returned with its text, and then
  -- the wallet too is as the other calls left it.
  pub updates_overlap :
      (c : EsploraClient E) (now stop_gap parallel_requests h : ℕ) (others : List (ℕ × Call V))
      (heap : Heap L.Wallet) (world : E.World)
      → All (IsProper V) others
      → ((i : ℕ) → (heap i).state ≡ Borrow.unused)
      → let w = (heap h).value in
        let ends = (plain_session H others (λ i. (heap i).value)).1 in
        let (scanned, world1) =
          E.full_scan c.client
            (V.start_full_scan_at w (now / 1000))
            stop_gap
            parallel_requests
            world in
        let (synced, world2) =
          E.sync c.client
            (V.start_sync_with_revealed_spks_at w (now / 1000))
            parallel_requests
            world in
        EndsIn V h ends
          (take_answer V (map_ok E.full_scan_update scanned) (ends h))
          world1
          (scan_wallet H E c now stop_gap parallel_requests h others heap world)
        × EndsIn V h ends
            (take_answer V (map_ok E.sync_update synced) (ends h))
            world2
            (sync_wallet H E c now parallel_requests h others heap world)
  updates_overlap c now stop_gap parallel_requests h others heap world own free =
      let seconds = now / 1000 in
      let scan : L.Wallet → Result String V.Update × E.World = λ w.
        let (r, after) =
          E.full_scan c.client (V.start_full_scan_at w seconds) stop_gap parallel_requests world in
        (map_ok E.full_scan_update r, after) in
      let synch : L.Wallet → Result String V.Update × E.World = λ w.
        let (r, after) =
          E.sync c.client (V.start_sync_with_revealed_spks_at w seconds) parallel_requests world in
        (map_ok E.sync_update r, after) in
      (
        update_by-EndsIn H V takes peeks (Query.start_full_scan now)
            (λ w. wrap (V.start_full_scan_at w seconds))
            (λ request. full_scan E c request stop_gap parallel_requests) scan h others heap world
            (λ _. refl)
            (λ w.
              full_scan_answers E c world (V.start_full_scan_at w seconds) stop_gap
                parallel_requests)
            own free,
        update_by-EndsIn H V takes peeks (Query.start_sync_with_revealed_spks now)
            (λ w. wrap (V.start_sync_with_revealed_spks_at w seconds))
            (λ request. sync E c request parallel_requests) synch h others heap world (λ _. refl)
            (λ w.
              sync_answers E c world (V.start_sync_with_revealed_spks_at w seconds)
                parallel_requests)
            own free,
      )
