-- ===== src/Tests/Esplora.antt =====
-- Sleeps in a small event loop, and a client of a server that gives fixed answers.
use bdk_wasm.Base.{ℕ, ◌+◌, ◌*◌, ◌%◌, ◌≤◌, ◌≡◌, ◌≢◌, ◌⊎◌, refl, String, Result, ok, err, arith}
use bdk_wasm.Base.{◌==◌, if◌then◌else◌}
use bdk_wasm.Base.{suc, none, []}
use bdk_wasm.Bdk.Esplora.{EsploraLib}
use bdk_wasm.Esplora.Client.{EsploraClient}
use bdk_wasm.Esplora.Workflow.{take_answer, scan_wallet, sync_wallet}
use bdk_wasm.Esplora.Workflow.Laws.{EndsIn, updates_overlap}
use bdk_wasm.Wallet.Session.Plain.{plain_session}
use bdk_wasm.Tests.Samples.{host}
use bdk_wasm.Tests.Sessions.{wallets, wallets-PeeksIndices, calls, calls-IsProper, heap}
use bdk_wasm.Tests.Samples.{lib-TakesHeights}
use bdk_wasm.Esplora.Delay.{Duration, sleep_delay, waits}
use bdk_wasm.Esplora.Sleep.{
  Window, Promise, EventLoop, Event, Poll, sleep, poll, after, IsFair, IsPrompt,
}
use bdk_wasm.Esplora.Sleep.Laws.{sleep_ends, sleep-waits}

abbrev js_poll : Promise → Poll (Result String String)
js_poll (Promise.pending _) = Poll.pending
js_poll Promise.fulfilled = Poll.ready (ok "undefined")
js_poll Promise.rejected = Poll.ready (err "unreachable")

js_poll-IsPrompt : IsPrompt js_poll
js_poll-IsPrompt = record {
  waits_on = λ _. refl;
  resolves = ("undefined", refl);
  rejects = ("unreachable", refl);
}

-- Time and turns alternate.
abbrev trace : ℕ → Event
trace n = if n % 2 == 0 then Event.elapses else Event.turns

trace-IsFair : IsFair trace
trace-IsFair = record {
  passes = λ n. (2 * n, omega arith, ground arith);
  goes_on = λ n. (2 * n + 1, omega arith, ground arith);
}

abbrev loop : EventLoop
loop = record { window = Window.working; now = 5; next = 0; promises = λ _. Promise.rejected }

abbrev second : Duration
second = record { secs = 1; nanos = 0 }

sleep_ends_example :
    let (i, started) = sleep second loop in
    (n : ℕ) × ((m : ℕ) → n ≤ m → poll js_poll ((after trace m started).promises i) ≡ Poll.ready tt)
sleep_ends_example = sleep_ends js_poll js_poll-IsPrompt second loop trace trace-IsFair

sleep-waits_example :
    let (i, started) = sleep second loop in
    let now = after trace 9 started in
    (loop.window ≡ Window.working)
      × ((poll js_poll (now.promises i) ≡ Poll.pending)
          ⊎ (loop.now + waits (sleep_delay second) ≤ now.now))
    ⊎ (loop.window ≢ Window.working) × (poll js_poll (now.promises i) ≡ Poll.ready tt)
sleep-waits_example = sleep-waits js_poll js_poll-IsPrompt second loop trace 9

-- A server that answers with the time of the request, or fails when it is asked for nothing at all.
abbrev server : EsploraLib wallets ℕ
server = record {
  World = ℕ;
  Builder = String;
  AsyncClient = String;
  FullScanResponse = ℕ;
  SyncResponse = ℕ;
  builder = λ url. url;
  max_retries = λ _ b. b;
  build_async_with_sleeper = λ b. ok b;
  full_scan = λ _ request stop_gap _ world.
      (if stop_gap == 0 then err "stop gap" else ok request, suc world);
  sync = λ _ request _ world. (ok request, suc world);
  broadcast = λ _ _ world. (ok tt, suc world);
  get_fee_estimates = λ _ world. (ok [], suc world);
  get_tx = λ _ _ world. (ok none, suc world);
  full_scan_update = λ r. r;
  sync_update = λ r. r;
}

abbrev client : EsploraClient server
client = record { client = "url" }

abbrev wallet_ends : ℕ → ℕ
wallet_ends = (plain_session host calls (λ i. i)).1

-- The two wallets are called in between.
updates_overlap_example :
    EndsIn wallets 0 wallet_ends
      (take_answer wallets (ok 7) (wallet_ends 0))
      1
      (scan_wallet host server client 7000 20 5 0 calls heap 0)
    × EndsIn wallets 0 wallet_ends
        (take_answer wallets (ok 7) (wallet_ends 0))
        1
        (sync_wallet host server client 7000 5 0 calls heap 0)
updates_overlap_example =
    updates_overlap host server lib-TakesHeights wallets-PeeksIndices client 7000 20 5 0 calls heap
      0 calls-IsProper (λ _. refl)
