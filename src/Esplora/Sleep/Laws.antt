-- ===== src/Esplora/Sleep/Laws.antt =====
-- When a sleep ends.
use bdk_wasm.Base.{ℕ, suc, ◌+◌, ◌≤◌, ◌<◌, ◌≡◌, ◌≢◌, refl, ◌⊎◌, inl, inr, String, Result, arith}
use bdk_wasm.Esplora.Delay.{Duration, sleep_delay, waits}
use bdk_wasm.Esplora.Sleep.{
  Window, Promise, EventLoop, Event, Poll, sleep, poll, after, IsFair, IsPrompt,
}
use bdk_wasm.Esplora.Sleep.Steps.{
  IsSettled, IsOnTime, turns-IsSettled, after-zero, after-suc, after-now, after-IsSettled,
  after-IsOnTime, clock_reaches,
}

module _ (js_poll : Promise → Poll (Result String String)) (prompt : IsPrompt js_poll) where
  poll-IsSettled : (p : Promise) → IsSettled p → poll js_poll p ≡ Poll.ready tt
  unfolding poll
  poll-IsSettled p (inl e) = rw (e, prompt.resolves.1)
  poll-IsSettled p (inr e) = rw (e, prompt.rejects.1)

  poll-IsOnTime :
      (due : ℕ) (l : EventLoop) (p : Promise)
      → IsOnTime due l p
      → (poll js_poll p ≡ Poll.pending) ⊎ (due ≤ l.now)
  unfolding poll
  poll-IsOnTime due l p (inl e) = inl (rw (e, prompt.waits_on))
  poll-IsOnTime due l p (inr (_, passed)) = inr passed

window_works : (w : Window) → (w ≡ Window.working) ⊎ (w ≢ Window.working)
window_works Window.missing = inr (λ e. cc)
window_works Window.refusing = inr (λ e. cc)
window_works Window.working = inl refl

module _ (dur : Duration) (l : EventLoop) where
  sleep-IsOnTime :
      l.window ≡ Window.working
      → let (i, started) = sleep dur l in
        IsOnTime (l.now + waits (sleep_delay dur)) started (started.promises i)
  unfolding sleep
  sleep-IsOnTime works = ground arith

  sleep-IsSettled :
      l.window ≢ Window.working → let (i, started) = sleep dur l in IsSettled (started.promises i)
  unfolding sleep
  sleep-IsSettled broken = ground arith

  sleep_made : let (i, started) = sleep dur l in i < started.next
  unfolding sleep
  sleep_made = ground arith

module _ (dur : Duration) (l : EventLoop) (trace : ℕ → Event) where
  -- A sleep that cannot set its timer is over at once.
  broken-IsSettled :
      l.window ≢ Window.working
      → (n : ℕ) → let (i, started) = sleep dur l in IsSettled ((after trace n started).promises i)
  broken-IsSettled broken n =
      let (i, started) = sleep dur l in
      after-IsSettled trace started i 0 n (sleep_made dur l) (omega arith)
        (rw after-zero (sleep-IsSettled dur l broken))

  works-IsOnTime :
      l.window ≡ Window.working
      → (n : ℕ)
      → let (i, started) = sleep dur l in
        let now = after trace n started in
        IsOnTime (l.now + waits (sleep_delay dur)) now (now.promises i)
  works-IsOnTime works n =
      let (i, started) = sleep dur l in
      after-IsOnTime trace started i _ n (sleep_made dur l) (sleep-IsOnTime dur l works)

  works-IsSettled :
      l.window ≡ Window.working
      → IsFair trace
      → let (i, started) = sleep dur l in
        (n : ℕ) × ((m : ℕ) → n ≤ m → IsSettled ((after trace m started).promises i))
  works-IsSettled works fair =
      let (i, started) = sleep dur l in
      let due = l.now + waits (sleep_delay dur) in
      let (n, reached) = clock_reaches trace started fair due in
      let (m, later, turn) = fair.goes_on n in
      let passed : due ≤ (after trace m started).now =
        omega (arith, reached, after-now trace started n m later) in
      let done : IsSettled ((after trace (suc m) started).promises i) =
        rw (after-suc, turn)
          (turns-IsSettled i due (after trace m started) passed (works-IsOnTime works m)) in
      (suc m, λ k h. after-IsSettled trace started i (suc m) k (sleep_made dur l) h done)

module _ (js_poll : Promise → Poll (Result String String)) (prompt : IsPrompt js_poll) where
  -- If time goes on and the event loop goes on turning, whatever other sleeps begin meanwhile, then
  -- a sleep is ready from some event on, with or without a window.
  pub sleep_ends :
      (dur : Duration) (l : EventLoop) (trace : ℕ → Event)
      → IsFair trace
      → let (i, started) = sleep dur l in
        (n : ℕ) × ((m : ℕ)
          → n ≤ m
          → poll js_poll ((after trace m started).promises i) ≡ Poll.ready tt)
  sleep_ends dur l trace fair = elim (window_works l.window) [
    | inl works ↦
        let (n, settled) = works-IsSettled dur l trace works fair in
        (n, λ m h. poll-IsSettled js_poll prompt _ (settled m h))
    | inr broken ↦
        (0, λ m _. poll-IsSettled js_poll prompt _ (broken-IsSettled dur l trace broken m))
  ]

  -- On a window whose `setTimeout` works, a sleep is pending, or the clock has moved on by the delay
  -- that was handed to `setTimeout`. Without such a window it is ready at every moment, from the
  -- first on: the failure is taken for the end of the sleep.
  pub sleep-waits :
      (dur : Duration) (l : EventLoop) (trace : ℕ → Event) (n : ℕ)
      → let (i, started) = sleep dur l in
        let now = after trace n started in
        (l.window ≡ Window.working)
          × ((poll js_poll (now.promises i) ≡ Poll.pending)
              ⊎ (l.now + waits (sleep_delay dur) ≤ now.now))
        ⊎ (l.window ≢ Window.working) × (poll js_poll (now.promises i) ≡ Poll.ready tt)
  sleep-waits dur l trace n = elim (window_works l.window) [
    | inl works ↦ inl (
      works,
      poll-IsOnTime js_poll prompt _ (after trace n (sleep dur l).1) _
          (works-IsOnTime dur l trace works n),
    )
    | inr broken ↦
        inr (broken, poll-IsSettled js_poll prompt _ (broken-IsSettled dur l trace broken n))
  ]
