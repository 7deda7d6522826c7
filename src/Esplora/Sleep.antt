-- ===== src/Esplora/Sleep.antt =====
-- `WebSleeper::sleep` and `WebSleep`: a sleep is a promise that a timer of the browser fulfils, and
-- the event loop that it runs in.
mod Steps
pub mod Laws
use bdk_wasm.Base.{ℕ, zero, suc, ◌+◌, String, Outcome, returned, panicked, Result, ok, err}
use bdk_wasm.Base.{◌≤◌, ◌≡◌, ◌==◌, leb, if◌then◌else◌}
use bdk_wasm.Base.Int.{ℤ}
use bdk_wasm.Esplora.Delay.{Duration, sleep_delay, waits}

-- What `web_sys::window()` finds: no window, as in a worker, or one whose `setTimeout` throws or
-- works.
pub data Window : Type 0 where
  missing refusing working : Window

-- The promise of a sleep. It is pending until the timer runs that is due at a time.
pub data Promise : Type 0 where
  pending : ℕ → Promise
  fulfilled rejected : Promise

-- The event loop: its clock in milliseconds, and the promises made so far.
pub record EventLoop : Type 0 where
  pub window : Window
  pub now : ℕ
  pub next : ℕ
  pub promises : ℕ → Promise

-- The closure that `sleep` hands to `Promise::new`: it sets a timer, or one of its `unwrap`s panics.
unfoldable pub executor : ℤ → EventLoop → Outcome Promise
executor ms l = elim l.window [
  | Window.missing ↦ panicked "called `Option::unwrap()` on a `None` value"
  | Window.refusing ↦ panicked "called `Result::unwrap()` on an `Err` value"
  | Window.working ↦ returned (Promise.pending (l.now + waits ms))
]

-- `Promise::new`. A constructor of promises catches what its executor throws, here the trap of a
-- panic, and rejects the promise.
abbrev pub promise_new : Outcome Promise → Promise
promise_new (returned p) = p
promise_new (panicked _) = Promise.rejected

-- `WebSleeper::sleep`, which gives the index of its promise.
unfoldable pub sleep : Duration → EventLoop → ℕ × EventLoop
unfolding executor
sleep dur l = (l.next, record l { next = suc l.next; promises = promises })
  where
    promises : ℕ → Promise
    promises i = if i == l.next then promise_new (executor (sleep_delay dur) l) else l.promises i

-- `std::task::Poll`
pub data Poll (A : Type 0) : Type 0 where
  ready : A → Poll A
  pending : Poll A

-- `Poll::map`
abbrev pub map_poll : {A B : Type 0} → (A → B) → Poll A → Poll B
map_poll f (Poll.ready a) = Poll.ready (f a)
map_poll f Poll.pending = Poll.pending

-- `JsFuture::poll` of wasm-bindgen-futures, which waits for the promise to be settled.
pub record IsPrompt (js_poll : Promise → Poll (Result String String)) : Type 0 where
  pub waits_on : (due : ℕ) → js_poll (Promise.pending due) ≡ Poll.pending
  pub resolves : (v : String) × (js_poll Promise.fulfilled ≡ Poll.ready (ok v))
  pub rejects : (e : String) × (js_poll Promise.rejected ≡ Poll.ready (err e))

-- `WebSleep::poll`
unfoldable pub poll : (Promise → Poll (Result String String)) → Promise → Poll (Unit {0})
poll js_poll p = map_poll (λ _. tt) (js_poll p)

-- What happens in the event loop: a millisecond passes, a turn runs the callbacks of the timers that
-- are due, or the client sleeps once more.
pub data Event : Type 0 where
  elapses turns : Event
  sleeps : Duration → Event

-- A timer's callback, `resolve.call0`, if the timer is due.
abbrev pub run_due : ℕ → Promise → Promise
run_due now (Promise.pending due) = if leb due now then Promise.fulfilled else Promise.pending due
run_due now p = p

unfoldable pub step : EventLoop → Event → EventLoop
unfolding sleep
step l Event.elapses = record l { now = suc l.now }
step l Event.turns = record l { promises = λ i. run_due l.now (l.promises i) }
step l (Event.sleeps dur) = (sleep dur l).1

-- The loop after the first `n` events of a trace.
unfoldable pub after : (ℕ → Event) → ℕ → EventLoop → EventLoop
after trace zero l = l
after trace (suc n) l = step (after trace n l) (trace n)

-- Time goes on, and the loop goes on turning.
pub record IsFair (trace : ℕ → Event) : Type 0 where
  pub passes : (n : ℕ) → (m : ℕ) × (n ≤ m) × (trace m ≡ Event.elapses)
  pub goes_on : (n : ℕ) → (m : ℕ) × (n ≤ m) × (trace m ≡ Event.turns)
