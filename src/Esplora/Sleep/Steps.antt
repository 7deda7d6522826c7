-- ===== src/Esplora/Sleep/Steps.antt =====
-- What an event, and a stretch of a trace, makes of one promise and of the clock.
use bdk_wasm.Base.{ℕ, zero, suc, ◌+◌, ◌-◌, ◌≤◌, ◌<◌, ◌≡◌, refl, subst, ◌⊎◌, arith}
use bdk_wasm.Esplora.Sleep.{Promise, EventLoop, Event, step, after}
use bdk_wasm.Esplora.Sleep.{IsFair}
use native.Mathlib.Nat.{zero-add, suc-add}

abbrev pub IsSettled : Promise → Type 0
IsSettled p = (p ≡ Promise.fulfilled) ⊎ (p ≡ Promise.rejected)

-- The promise still waits for its timer, or the timer has run, when it was due.
abbrev pub IsOnTime : ℕ → EventLoop → Promise → Type 0
IsOnTime due l p = (p ≡ Promise.pending due) ⊎ ((p ≡ Promise.fulfilled) × (due ≤ l.now))

module _ (i : ℕ) (l : EventLoop) (e : Event) where
  step-now : l.now ≤ (step l e).now
  unfolding step
  step-now = ground arith

  step-next : l.next ≤ (step l e).next
  unfolding step
  step-next = ground arith

  step-IsSettled : i < l.next → IsSettled (l.promises i) → IsSettled ((step l e).promises i)
  unfolding step
  step-IsSettled made s = ground arith

  step-IsOnTime :
      (due : ℕ)
      → i < l.next
      → IsOnTime due l (l.promises i)
      → IsOnTime due (step l e) ((step l e).promises i)
  unfolding step
  step-IsOnTime due made s = ground arith

elapses-now : (l : EventLoop) → (step l Event.elapses).now ≡ suc l.now
unfolding step
elapses-now l = refl

-- A turn settles a promise whose timer is due.
pub turns-IsSettled :
    (i due : ℕ) (l : EventLoop)
    → due ≤ l.now
    → IsOnTime due l (l.promises i)
    → IsSettled ((step l Event.turns).promises i)
unfolding step
turns-IsSettled i due l passed s = ground arith

module _ (trace : ℕ → Event) (l : EventLoop) where
  pub after-zero : after trace 0 l ≡ l
  unfolding after
  after-zero = refl

  pub after-suc : (n : ℕ) → after trace (suc n) l ≡ step (after trace n l) (trace n)
  unfolding after
  after-suc n = refl

  after-next : (n : ℕ) → l.next ≤ (after trace n l).next
  unfolding after
  after-next zero = omega arith
  after-next (suc n) = omega (arith, after-next n, step-next 0 (after trace n l) (trace n))

  -- What a step keeps holds later too.
  keeps :
      (P : EventLoop → Type 0)
      → ((k : EventLoop) (e : Event) → l.next ≤ k.next → P k → P (step k e))
      → (n m : ℕ) → n ≤ m
      → P (after trace n l)
      → P (after trace m l)
  keeps P kept n m later p = subst (λ i. P (after trace i l)) (omega arith) (go (m - n))
    where
      go : (k : ℕ) → P (after trace (k + n) l)
      go zero = rw zero-add p
      go (suc k) = rw (suc-add, after-suc) (kept _ (trace (k + n)) (after-next (k + n)) (go k))

  pub after-now : (n m : ℕ) → n ≤ m → (after trace n l).now ≤ (after trace m l).now
  after-now n m later =
      keeps (λ k. (after trace n l).now ≤ k.now) (λ k e _ h. omega (arith, h, step-now 0 k e)) n m
        later (omega arith)

  -- A promise that is settled stays so.
  pub after-IsSettled :
      (i n m : ℕ)
      → i < l.next
      → n ≤ m
      → IsSettled ((after trace n l).promises i)
      → IsSettled ((after trace m l).promises i)
  after-IsSettled i n m made later =
      keeps (λ k. IsSettled (k.promises i)) (λ k e h. step-IsSettled i k e (omega arith)) n m later

  pub after-IsOnTime :
      (i due n : ℕ)
      → i < l.next
      → IsOnTime due l (l.promises i)
      → IsOnTime due (after trace n l) ((after trace n l).promises i)
  unfolding after
  after-IsOnTime i due n made =
      keeps (λ k. IsOnTime due k (k.promises i)) (λ k e h. step-IsOnTime i k e due (omega arith)) 0
        n (omega arith)

  -- The clock of a fair trace reaches every time.
  pub clock_reaches : IsFair trace → (time : ℕ) → (n : ℕ) × (time ≤ (after trace n l).now)
  clock_reaches fair zero = (0, omega arith)
  clock_reaches fair (suc time) =
      let (n, reached) = clock_reaches fair time in
      let (m, later, elapses) = fair.passes n in
      (suc m, rw (after-suc, elapses, elapses-now) (omega (arith, after-now n m later)))
