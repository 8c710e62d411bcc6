-- ===== src/Resilience/Executor.antt =====
-- internal/resilience/executor.go. What the environment does in an attempt (the context's error, the
-- clock, the operation's reply, the other users of a shared breaker, the wait that is cut short) is
-- a `Round`, one for each attempt number. `calls` counts the operation's calls; the other counters
-- are the dependency metrics. Negative durations and attempts, which the code treats as 0, have no
-- representation.
pub mod Accounts
pub mod Retries
pub mod Backoff
use liveclass.Prelude.{
  ℕ, zero, suc, ◌+◌, ◌-◌, ◌*◌, ◌/◌, ◌%◌, ◌^◌, ◌<◌, Bool, true, false, not, ◌&&◌, ◌||◌, List, Option,
  none, some, ltb, leb, if◌then◌else◌,
}
use liveclass.Prelude.Int.{ℤ, pos, negsuc}
use liveclass.Resilience.Float.{Float64}
use liveclass.Resilience.Breaker.{CircuitBreaker, Call, acquire, done, run}

-- The 64-bit shift `x << k`, read as a signed number.
unfoldable pub shl_int64 : ℕ → ℕ → ℤ
shl_int64 x k =
    let u = (x * 2 ^ k) % 2 ^ 64 in if ltb u (2 ^ 63) then pos u else negsuc (2 ^ 64 - 1 - u)

-- The delay of `waitBackoff` before the jitter, capped by `MaxBackoff` if that is set.
unfoldable pub backoff_delay : ℕ → ℕ → ℕ → ℤ
backoff_delay backoff max_backoff failed_attempt = elim (shl_int64 backoff (failed_attempt - 1)) [
  | pos d ↦ if ltb 0 max_backoff && ltb max_backoff d then pos max_backoff else pos d
  | negsuc d ↦ negsuc d
]

-- `rand.Int63n(delay/2 + 1)` panics if its argument is not positive; division truncates.
unfoldable pub jitter_panics : ℤ → Bool
jitter_panics (pos d) = false
jitter_panics (negsuc d) = leb 1 d

pub data Reply (T E : Type 0) : Type 0 where
  value : T → Reply T E
  fault : E → Reply T E

pub record Round (T E : Type 0) : Type 0 where
  pub ctx_err : Option E  -- ctx.Err() at the head of the loop
  pub others_before : List (ℕ × Call)  -- other users of the breaker, before `Acquire`
  pub acquire_at : ℕ
  pub reply : Reply T E
  pub others_during : List (ℕ × Call)  -- and while the operation runs
  pub done_at : ℕ
  pub deadline : Bool  -- the attempt's context or the error is DeadlineExceeded
  pub wait_err : Option E  -- the context ends before the timer

pub data Outcome (T E : Type 0) : Type 0 where
  returned : T → Outcome T E
  context_error : E → Outcome T E
  breaker_error : Outcome T E
  failed : E → Outcome T E
  no_error : Outcome T E  -- a nil `lastErr`
  panicked : Outcome T E

-- How the wait before a retry ends.
pub data Wait (E : Type 0) : Type 0 where
  waited : Wait E
  interrupted : E → Wait E
  wait_panics : Wait E

module _ (float : Float64) (T E : Type 0) where
  pub record Policy : Type 0 where
    pub attempts : ℕ
    pub backoff : ℕ
    pub max_backoff : ℕ
    pub retry_if : Option (E → Bool)

  pub record Progress : Type 0 where
    pub breaker : Option (CircuitBreaker float)
    pub requests : ℕ
    pub errors : ℕ
    pub timeouts : ℕ
    pub retries : ℕ
    pub calls : ℕ

  -- `policy.Breaker.Acquire()`, granted at once if there is no breaker.
  unfoldable pub admit :
      Option (CircuitBreaker float) → Round T E → Option (CircuitBreaker float) × Bool
  admit none r = (none, true)
  admit (some b) r =
      let (b', granted) = acquire float (run float b r.others_before) r.acquire_at in
      (some b', granted)

  -- `permit.Done(success)`, the permit's only use.
  unfoldable pub settle :
      Option (CircuitBreaker float) → Round T E → Bool → Option (CircuitBreaker float)
  settle none r success = none
  settle (some b) r success =
      some (done float false (run float b r.others_during) success r.done_at).1

  -- The result of an attempt that gives up, with the error counter of the two exits.
  abbrev give_up : Progress → Outcome T E → Progress × Outcome T E
  give_up s o = (record s { errors = s.errors + 1 }, o)

  unfoldable pub may_retry : Policy → E → Bool
  may_retry p e = elim p.retry_if [ none ↦ false | some test ↦ test e ]

  -- `waitBackoff`
  unfoldable pub wait_backoff : Policy → ℕ → Round T E → Wait E
  wait_backoff p attempt r =
      if leb p.backoff 0
      then waited
      else if jitter_panics (backoff_delay p.backoff p.max_backoff attempt)
      then wait_panics
      else elim r.wait_err [ none ↦ waited | some e ↦ interrupted e ]

  abbrev pub count_call : Progress → Option (CircuitBreaker float) → Progress
  count_call s b = record s { breaker = b; calls = s.calls + 1 }

  abbrev pub count_timeout : Progress → Bool → Progress
  count_timeout s late = if late then record s { timeouts = s.timeouts + 1 } else s

  abbrev pub count_retry : Progress → Progress
  count_retry s = record s { retries = s.retries + 1 }

  -- The state after an attempt whose operation failed.
  abbrev pub after_fault : Progress → Round T E → Progress
  after_fault s r = count_timeout (count_call s (settle (admit s.breaker r).0 r false)) r.deadline

  abbrev after_wait : Wait E → Progress → Progress × Outcome T E → Progress × Outcome T E
  after_wait waited s rest = rest
  after_wait wait_panics s rest = (s, panicked)
  after_wait (interrupted e) s rest = give_up s (context_error e)

  -- The loop of `Do`, by the attempts left.
  unfoldable pub attempt_loop : ℕ → ℕ → Policy → (ℕ → Round T E) → Progress → Progress × Outcome T E
  attempt_loop zero n p rounds s = give_up s no_error
  attempt_loop (suc left) n p rounds s = elim (rounds n).ctx_err [
    | some e ↦ give_up s (context_error e)
    | none ↦
        let (b, granted) = admit s.breaker (rounds n) in
        elim granted [
          | false ↦ give_up (record s { breaker = b }) breaker_error
          | true ↦ elim (rounds n).reply [
            | value v ↦ (count_call s (settle b (rounds n) true), returned v)
            | fault e ↦
                let t = after_fault s (rounds n) in
                elim (leb left 0 || not (may_retry p e)) [
                  | true ↦ give_up t (failed e)
                  | false ↦
                      after_wait (wait_backoff p n (rounds n)) (count_retry t)
                        (attempt_loop left (suc n) p rounds (count_retry t))
                ]
          ]
        ]
  ]

  -- `Do`
  unfoldable pub execute : Policy → (ℕ → Round T E) → Progress → Progress × Outcome T E
  execute p rounds s =
      attempt_loop (if leb p.attempts 0 then 1 else p.attempts) 1 p rounds
        (record s { requests = s.requests + 1 })
