-- ===== src/Esplora/Delay.antt =====
-- `WebSleeper::sleep`: a duration becomes the milliseconds of a browser timeout, a 32-bit integer.
use bdk_wasm.Base.{ℕ, ◌+◌, ◌-◌, ◌*◌, ◌/◌, ◌%◌, ◌^◌, ◌≤◌, ◌<◌, ◌≡◌, ◌↔◌, ltb, if◌then◌else◌, arith}
use bdk_wasm.Base.Int.{ℤ}

-- `std::time::Duration`: seconds below 2 ^ 64, and nanoseconds below 10 ^ 9.
pub record Duration : Type 0 where
  pub secs : ℕ
  pub nanos : ℕ

-- `Duration::as_millis`, a `u128`, which never overflows.
abbrev pub as_millis : Duration → ℕ
as_millis dur = dur.secs * 1000 + dur.nanos / 1000000

-- `n as i32`: the lowest 32 bits, read in two's complement.
abbrev pub as_i32 : ℕ → ℤ
as_i32 n =
    let low = n % 2 ^ 32 in if ltb low (2 ^ 31) then ℤ.pos low else ℤ.negsuc (2 ^ 32 - 1 - low)

-- The delay that `sleep` hands to `setTimeout`.
unfoldable pub sleep_delay : Duration → ℤ
sleep_delay dur = as_i32 (as_millis dur)

-- How long the browser waits for a delay: a negative one counts as none.
abbrev pub waits : ℤ → ℕ
waits (ℤ.pos n) = n
waits (ℤ.negsuc n) = 0

as_i32-exact : (n : ℕ) → (waits (as_i32 n) ≤ n) × ((waits (as_i32 n) ≡ n) ↔ (n < 2 ^ 31))
as_i32-exact n = ground arith

-- A sleep never waits longer than its duration, and it waits for all of its whole milliseconds
-- exactly when these are below 2 ^ 31, which is almost 25 days: a longer sleep is cut short.
pub sleep_delay-exact :
    (dur : Duration)
    → (waits (sleep_delay dur) ≤ as_millis dur)
      × ((waits (sleep_delay dur) ≡ as_millis dur) ↔ (as_millis dur < 2 ^ 31))
unfolding sleep_delay
sleep_delay-exact dur = as_i32-exact (as_millis dur)
