-- ===== src/Resilience/Executor/Accounts.antt =====
-- What `Do` counts, whatever the environment does.
use Prim.Native.Nat.{max}
use liveclass.Prelude.{ℕ, zero, suc, ◌+◌, ◌-◌, ◌≤◌, ◌≡◌, ◌≢◌, arith, leb, Bool-cases, inl, inr}
use liveclass.Resilience.Float.{Float64}
use liveclass.Resilience.Executor.{
  Round, Outcome, returned, context_error, breaker_error, failed, no_error, panicked, Policy,
  Progress, count_retry, after_fault, attempt_loop, execute,
}

-- The errors that an outcome adds to the error counter: a panic escapes both exits.
abbrev pub error_count : {T E : Type 0} → Outcome T E → ℕ
error_count (returned v) = 0
error_count panicked = 0
error_count (context_error e) = 1
error_count breaker_error = 1
error_count (failed e) = 1
error_count no_error = 1

module _ (float : Float64) (T E : Type 0) (p : Policy float T E) (rounds : ℕ → Round T E) where
  -- From one state of the counters to another, with at most `left` calls.
  abbrev Accounts : ℕ → Progress float T E → Progress float T E × Outcome T E → Type 0
  Accounts left s (t, o) =
      (t.requests ≡ s.requests)
      × (t.errors ≡ s.errors + error_count o)
      × (t.calls ≤ s.calls + left)
      × (s.calls ≤ t.calls)
      × (t.retries + s.calls ≤ s.retries + t.calls)
      × (t.timeouts + s.calls ≤ s.timeouts + t.calls)

  attempt_loop-Accounts :
      (left n : ℕ) (s : Progress float T E)
      → Accounts left s (attempt_loop float T E left n p rounds s)
  unfolding attempt_loop
  attempt_loop-Accounts zero n s = ground arith
  attempt_loop-Accounts (suc left) n s = ground (
    arith,
    attempt_loop-Accounts left (suc n) (count_retry float T E (after_fault float T E s (rounds n))),
  )

  -- With an attempt left the loop never falls through without an error.
  attempt_loop-ne :
      (left n : ℕ) (s : Progress float T E)
      → (attempt_loop float T E (suc left) n p rounds s).1 ≢ no_error
  unfolding attempt_loop
  attempt_loop-ne zero n s h = ground arith
  attempt_loop-ne (suc left) n s h = ground (
    arith,
    attempt_loop-ne left (suc n) (count_retry float T E (after_fault float T E s (rounds n))),
  )

  -- However an execution ends, it has counted one request, and one error unless it returned a value
  -- or panicked; it made at most as many calls as its attempts (one, if none are configured),
  -- counted no more retries and no more timeouts than calls, and never ends with neither a value
  -- nor an error.
  pub execute-Accounts :
      (s : Progress float T E)
      → let (t, o) = execute float T E p rounds s in
        (t.requests ≡ s.requests + 1)
        × (t.errors ≡ s.errors + error_count o)
        × (t.calls ≤ s.calls + max 1 p.attempts)
        × (t.retries + s.calls ≤ s.retries + t.calls)
        × (t.timeouts + s.calls ≤ s.timeouts + t.calls)
        × (o ≢ no_error)
  unfolding execute
  execute-Accounts s =
      let t = record s { requests = s.requests + 1 } in
      elim (Bool-cases (leb p.attempts 0)) [
        | inl e ↦ rw e (ground (arith, attempt_loop-Accounts 1 1 t, attempt_loop-ne 0 1 t))
        | inr e ↦ rw e (
            ground
              (arith, attempt_loop-Accounts p.attempts 1 t, attempt_loop-ne (p.attempts - 1) 1 t))
      ]
