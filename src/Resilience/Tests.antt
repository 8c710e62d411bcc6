-- ===== src/Resilience/Tests.antt =====
-- Runs of the breaker and the executor, and the theorems at inputs where their hypotheses hold.
use liveclass.Prelude.{
  ℕ, ◌+◌, ◌*◌, ◌<◌, ◌≤◌, ◌≡◌, ◌≢◌, refl, ◌↔◌, ◌⊎◌, inr, true, false, [], ◌∷◌, none, some, arith,
  ltb, leb, if◌then◌else◌, length,
}
use Prim.Native.Nat.{max}
use liveclass.Resilience.Float.{fractions}
use liveclass.Resilience.Breaker.{
  closed, open_circuit, half_open, ok, BreakerConfig, CircuitBreaker, acquires, reports,
  new_circuit_breaker, acquire, observed_state, record_outcome, record_closed, record_half_open,
  run, step, over_threshold, drop_stale, count_failures,
}
use liveclass.Resilience.Breaker.Invariant.{IsValid, new-IsValid, run-new_circuit_breaker-IsValid}
use liveclass.Resilience.Breaker.Window.{after_report, record_closed-window}
use liveclass.Resilience.Breaker.Lifecycle.{acquire-observed_state}
use liveclass.Resilience.Breaker.Trips.{failure_trips}
use liveclass.Resilience.Executor.{
  Round, Reply, value, fault, returned, failed, Policy, Progress, may_retry, wait_backoff, execute,
  backoff_delay, jitter_panics, shl_int64, no_error,
}
use liveclass.Resilience.Executor.Accounts.{error_count, execute-Accounts}
use liveclass.Resilience.Executor.Retries.{Returns, execute-returned, execute-failed}
use liveclass.Resilience.Executor.Backoff.{backoff_overflow}

abbrev config : BreakerConfig fractions
config = record {
  dependency = "redis";
  rolling_window = 100;
  minimum_requests = 2;
  failure_threshold = (1, 2);
  open_duration = 50;
  half_open_probes = 2;
}

abbrev fresh : CircuitBreaker fractions
fresh = record {
  cfg = config;
  state = closed;
  opened_at = 0;
  outcomes = [];
  half_open_in_flight = 0;
  half_open_success = 0;
  open_total = 0;
}

-- One failure in the window.
abbrev warned : CircuitBreaker fractions
warned = record fresh { outcomes = record { at = 10; success = false } ∷ [] }

-- Half-open, with both probes under way.
abbrev probing : CircuitBreaker fractions
probing = record fresh { state = half_open; half_open_in_flight = 2 }

-- Opened at time 20.
abbrev tripped : CircuitBreaker fractions
tripped = record fresh { state = open_circuit; opened_at = 20 }

fresh_new : new_circuit_breaker fractions config ≡ ok fresh
unfolding new_circuit_breaker
fresh_new = refl

fresh-IsValid : IsValid fresh
fresh-IsValid = new-IsValid config fresh fresh_new

tripped-IsValid : IsValid tripped
tripped-IsValid = ground arith

probing-IsValid : IsValid probing
probing-IsValid = ground arith

-- Two failures open the breaker, a call is refused, the next one after the pause is a probe, and two
-- good probes close it.
whole_life :
    (run fractions fresh (
      (5, acquires)
      ∷ (10, reports false)
      ∷ (12, reports false)
      ∷ (30, acquires)
      ∷ (62, acquires)
      ∷ (63, acquires)
      ∷ (70, reports true)
      ∷ (71, reports true)
      ∷ [])).state
    ≡ closed
unfolding run step acquire record_outcome record_closed record_half_open over_threshold drop_stale
    count_failures
whole_life = refl

run-new_circuit_breaker-IsValid_example :
    IsValid (run fractions fresh ((5, acquires) ∷ (10, reports false) ∷ []))
run-new_circuit_breaker-IsValid_example =
    run-new_circuit_breaker-IsValid config fresh ((5, acquires) ∷ (10, reports false) ∷ [])
      fresh_new

acquire-observed_state_example : ((acquire fractions tripped 75).1 ≡ true) ↔ (
    (observed_state fractions tripped 75 ≡ closed)
    ⊎ ((observed_state fractions tripped 75 ≡ half_open)
        × (tripped.half_open_in_flight < tripped.half_open_probes)))
acquire-observed_state_example = acquire-observed_state tripped 75 tripped-IsValid

record_closed-window_example :
    ((record_outcome fractions warned true 120).outcomes ≡ after_report fractions warned true 120)
    × ((record_outcome fractions warned true 120).state ≡ (
        if leb warned.minimum_requests (length (after_report fractions warned true 120))
        then if over_threshold fractions warned.failure_threshold
            (after_report fractions warned true 120)
          then open_circuit
          else closed
        else closed))
record_closed-window_example =
    record_closed-window fractions warned true 120 refl (omega arith) (omega arith)

failure_trips_example :
    let c = record_outcome fractions warned false 20 in
    (c.state ≡ open_circuit) × (acquire fractions c 69 ≡ (c, false))
failure_trips_example =
    failure_trips warned 20 69 refl (omega arith) (refl, tt) (omega arith) (omega arith) refl
      (omega arith)

-- An operation that fails twice, with error 7 or 9, and then returns 42.
abbrev reply_at : ℕ → Reply ℕ ℕ
reply_at n = if leb n 1 then fault 7 else if leb n 2 then fault 9 else value 42

abbrev rounds : ℕ → Round ℕ ℕ
rounds n = record {
  ctx_err = none;
  others_before = [];
  acquire_at = n;
  reply = reply_at n;
  others_during = [];
  done_at = n;
  deadline = false;
  wait_err = none;
}

abbrev policy : Policy fractions ℕ ℕ
policy = record { attempts = 4; backoff = 100; max_backoff = 150; retry_if = some (λ e. ltb e 10) }

-- The same policy that retries error 7 alone.
abbrev picky : Policy fractions ℕ ℕ
picky = record policy { retry_if = some (λ e. ltb e 8) }

abbrev start : Progress fractions ℕ ℕ
start = record { breaker = none; requests = 0; errors = 0; timeouts = 0; retries = 0; calls = 0 }

abbrev one_second : ℕ
one_second = 1000000000

execute-Accounts_example :
    let (t, o) = execute fractions ℕ ℕ picky rounds start in
    (t.requests ≡ start.requests + 1)
    × (t.errors ≡ start.errors + error_count o)
    × (t.calls ≤ start.calls + max 1 picky.attempts)
    × (t.retries + start.calls ≤ start.retries + t.calls)
    × (t.timeouts + start.calls ≤ start.timeouts + t.calls)
    × (o ≢ no_error)
execute-Accounts_example = execute-Accounts fractions ℕ ℕ picky rounds start

execute-returned_example :
    Returns fractions ℕ ℕ policy rounds start 2
      (execute fractions ℕ ℕ policy rounds start)
      (returned 42)
unfolding may_retry wait_backoff backoff_delay jitter_panics shl_int64
execute-returned_example =
    execute-returned fractions ℕ ℕ policy rounds start 2 42 refl (omega arith)
      (
        record { error = 7; alive = refl; replied = refl; retries = refl; waits = refl },
        (record { error = 9; alive = refl; replied = refl; retries = refl; waits = refl }, tt),
      )
      refl refl

execute-failed_example :
    Returns fractions ℕ ℕ picky rounds start 1 (execute fractions ℕ ℕ picky rounds start) (failed 9)
unfolding may_retry wait_backoff backoff_delay jitter_panics shl_int64
execute-failed_example =
    execute-failed fractions ℕ ℕ picky rounds start 1 9 refl (omega arith)
      (record { error = 7; alive = refl; replied = refl; retries = refl; waits = refl }, tt) refl
      refl (inr refl)

-- A backoff of one second, capped at ten, panics after its 35th failed attempt.
backoff_overflow_example : jitter_panics (backoff_delay one_second (10 * one_second) 35) ≡ true
backoff_overflow_example =
    backoff_overflow one_second (10 * one_second) 35 (omega arith) (omega arith)
