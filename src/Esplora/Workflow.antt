-- ===== src/Esplora/Workflow.antt =====
-- How a wallet is brought up to date: JavaScript asks it for a request, awaits the client's update,
-- and applies that. Other calls on any wallets may run while the update is awaited.
pub mod Laws
use bdk_wasm.Base.{ℕ, String, List, Result, ok, err, Outcome, returned, panicked}
use bdk_wasm.Base.Results.{JsResult, js_error}
use bdk_wasm.Base.RefCell.{Heap}
use bdk_wasm.Bdk.Opaque.{BdkTypes}
use bdk_wasm.Bdk.Builder.{BuilderLib}
use bdk_wasm.Bdk.Wallet.{WalletLib}
use bdk_wasm.Bdk.Esplora.{EsploraLib}
use bdk_wasm.Types.Wrapper.{Wrapper, into_inner}
use bdk_wasm.Types.Error.{Host}
use bdk_wasm.Esplora.Client.{EsploraClient, full_scan, sync}
use bdk_wasm.Wallet.Change.{apply_update}
use bdk_wasm.Wallet.Session.{Query, Call, AnswerOf}
use bdk_wasm.Wallet.Session.Perform.{ask, session}

-- The answer of `apply_update`, or the error before it, with the heap and the world.
abbrev pub Updated : {T : BdkTypes} {L : BuilderLib T} → WalletLib L → Type 0 → Type 0
Updated {L = L} V World = Outcome (JsResult (Unit {0})) × Heap L.Wallet × World

module _ {T : BdkTypes} {L : BuilderLib T} (V : WalletLib L) where
  -- What bdk_wallet makes of an answer of the server and a wallet.
  abbrev pub take_answer : Result String V.Update → L.Wallet → JsResult (Unit {0}) × L.Wallet
  take_answer (ok update) w = let (r, v) = V.apply_update update w in (js_error r, v)
  take_answer (err message) w = (err (record { text = message }), w)

module _ {T : BdkTypes} {L : BuilderLib T} (V : WalletLib L) {World : Type 0} where
  -- The last step: the update, if there is one, is applied.
  abbrev pub apply_fetched :
      ℕ → Heap L.Wallet → JsResult (Wrapper V.Update) × World → Updated V World
  apply_fetched h heap (ok update, world) =
      let (r, after) = apply_update V h update heap in (r, after, world)
  apply_fetched h heap (err e, world) = (returned (err e), heap, world)

module _ {T : BdkTypes} (H : Host T) {L : BuilderLib T} (V : WalletLib L) {World : Type 0} where
  -- The request, the other calls, the answer of the server, and the last step.
  abbrev pub update_by :
      (q : Query V)
      → (AnswerOf q → World → JsResult (Wrapper V.Update) × World)
      → ℕ
      → List (ℕ × Call V)
      → Heap L.Wallet
      → World
      → Updated V World
  update_by q fetch h others heap world =
      let (asked, heap1) = ask V h q heap in
      elim asked [
        | panicked message ↦ (panicked message, heap1, world)
        | returned request ↦
            let (log, heap2) = session H V others heap1 in
            elim log [
              | panicked message ↦ (panicked message, heap2, world)
              | returned _ ↦ apply_fetched V h heap2 (fetch request world)
            ]
      ]

module _ {T : BdkTypes} (H : Host T) {L : BuilderLib T} {V : WalletLib L} {F : Type 0}
    (E : EsploraLib V F) where
  -- A full scan, started at the time `now`.
  abbrev pub scan_wallet :
      EsploraClient E
      → ℕ
      → ℕ
      → ℕ
      → ℕ
      → List (ℕ × Call V)
      → Heap L.Wallet
      → E.World
      → Updated V E.World
  scan_wallet c now stop_gap parallel_requests =
      update_by H V (Query.start_full_scan now)
        (λ request. full_scan E c request stop_gap parallel_requests)

  -- A sync, started at the time `now`.
  abbrev pub sync_wallet :
      EsploraClient E → ℕ → ℕ → ℕ → List (ℕ × Call V) → Heap L.Wallet → E.World → Updated V E.World
  sync_wallet c now parallel_requests =
      update_by H V (Query.start_sync_with_revealed_spks now)
        (λ request. sync E c request parallel_requests)
