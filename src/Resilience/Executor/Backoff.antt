-- ===== src/Resilience/Executor/Backoff.antt =====
-- The delay of `waitBackoff`, and where its 64-bit shift leaves the range.
use Prim.Native.Nat.{min}
use liveclass.Prelude.{ℕ, ◌+◌, ◌-◌, ◌*◌, ◌^◌, ◌≤◌, ◌<◌, ◌≡◌, true, false, arith, ltb, if◌then◌else◌}
use liveclass.Prelude.Int.{pos}
use liveclass.Resilience.Executor.{shl_int64, backoff_delay, jitter_panics}

shl_small : (x k : ℕ) → x * 2 ^ k < 2 ^ 63 → shl_int64 x k ≡ pos (x * 2 ^ k)
unfolding shl_int64
shl_small x k h = ground arith

-- As long as the backoff doubled n - 1 times stays below 2^63, this is the n-th delay, but no more
-- than the cap, if there is one; and drawing the jitter does not panic.
pub backoff_delay-min :
    (backoff cap n : ℕ)
    → backoff * 2 ^ (n - 1) < 2 ^ 63
    → let d = backoff * 2 ^ (n - 1) in
      (backoff_delay backoff cap n ≡ pos (if ltb 0 cap then min d cap else d))
      × (jitter_panics (backoff_delay backoff cap n) ≡ false)
unfolding backoff_delay jitter_panics
backoff_delay-min backoff cap n h = ground (arith, shl_small backoff (n - 1) h)

-- Where the backoff doubled n - 1 times lands between 2^63 and 2^64 - 2, drawing the jitter panics,
-- whatever the cap.
pub backoff_overflow :
    (backoff cap n : ℕ)
    → 2 ^ 63 ≤ backoff * 2 ^ (n - 1)
    → backoff * 2 ^ (n - 1) + 1 < 2 ^ 64
    → jitter_panics (backoff_delay backoff cap n) ≡ true
unfolding backoff_delay jitter_panics shl_int64
backoff_overflow backoff cap n l h = ground arith
