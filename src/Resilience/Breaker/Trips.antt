-- ===== src/Resilience/Breaker/Trips.antt =====
-- What trips a closed breaker, and what never does.
use liveclass.Prelude.{
  ℕ, ◌+◌, ◌^◌, ◌≤◌, ◌<◌, ◌≡◌, refl, true, false, List, [], ◌∷◌, ◌++◌, length, arith, All,
  length-append, All-append,
}
use liveclass.Resilience.Float.{Float64}
use liveclass.Resilience.Breaker.{
  closed, open_circuit, Outcome, CircuitBreaker, acquire, drop_stale, over_threshold, record_closed,
  record_outcome, Call, acquires, reports, step, run,
}
use liveclass.Resilience.Breaker.Window.{none_failed, All-failed}

-- The loop drops a prefix, so it keeps whatever holds of every outcome.
drop_stale-All :
    (P : Outcome → Type 0) (window now : ℕ) (os : List Outcome)
    → All P os
    → All P (drop_stale window now os)
unfolding drop_stale
drop_stale-All P window now [] h = h
drop_stale-All P window now (o ∷ os) h = ground (arith, drop_stale-All P window now os h.1)

-- With no stale outcome the loop drops nothing.
drop_stale_none :
    (window now : ℕ) (os : List Outcome)
    → All (λ o. now ≤ o.at + window) os
    → drop_stale window now os ≡ os
unfolding drop_stale
drop_stale_none window now [] h = refl
drop_stale_none window now (o ∷ os) h = ground arith

-- The calls among which no failure is reported.
abbrev pub IsHealthy : ℕ × Call → Type 0
IsHealthy (now, acquires) = Unit
IsHealthy (now, reports s) = s ≡ true

module _ (float : Float64) where
  open float use {of_int, le, div-zero, div-self}

  zero_share :
      (t : float.F) (os : List Outcome)
      → 0 < length os
      → le t (of_int 0) ≡ false
      → All (λ o. o.success ≡ true) os
      → over_threshold float t os ≡ false
  unfolding over_threshold
  zero_share t os n h good = cc (none_failed os good, div-zero (length os) n)

  full_share :
      (t : float.F) (os : List Outcome)
      → 0 < length os
      → length os < 2 ^ 53
      → le t (of_int 1) ≡ true
      → All (λ o. o.success ≡ false) os
      → over_threshold float t os ≡ true
  unfolding over_threshold
  full_share t os n k h bad = cc (All-failed os bad, div-self (length os) n k)

module _ {float : Float64} where
  open float use {of_int, le}

  abbrev pub AllGood : CircuitBreaker float → Type 0
  AllGood b = (b.state ≡ closed) × All (λ o. o.success ≡ true) b.outcomes

  report_success :
      (b : CircuitBreaker float) (now : ℕ)
      → 0 < b.minimum_requests
      → le b.failure_threshold (of_int 0) ≡ false
      → AllGood b
      → let c = record_outcome float b true now in AllGood c × (c.cfg ≡ b.cfg)
  unfolding record_outcome record_closed
  report_success b now m t (e, good) =
      let os = b.outcomes ++ record { at = now; success = true } ∷ [] in
      let kept =
        drop_stale-All (λ o. o.success ≡ true) b.rolling_window now os
          (All-append (λ o. o.success ≡ true) b.outcomes _ good (refl, tt)) in
      ground
        (arith, kept, zero_share float b.failure_threshold (drop_stale b.rolling_window now os))

  step_healthy :
      (b : CircuitBreaker float) (c : ℕ × Call)
      → 0 < b.minimum_requests
      → le b.failure_threshold (of_int 0) ≡ false
      → AllGood b
      → IsHealthy c
      → let b' = step float b c in AllGood b' × (b'.cfg ≡ b.cfg)
  unfolding step acquire
  step_healthy b (now, acquires) m t g h = ground arith
  step_healthy b (now, reports s) m t g h = rw h (report_success b now m t g)

  -- A closed breaker with a threshold above 0 and a window without failures stays closed through
  -- any history without a reported failure, and grants every permit after it.
  pub run-healthy :
      (b : CircuitBreaker float) (cs : List (ℕ × Call)) (now : ℕ)
      → 0 < b.minimum_requests
      → le b.failure_threshold (of_int 0) ≡ false
      → AllGood b
      → All IsHealthy cs
      → ((run float b cs).state ≡ closed) × ((acquire float (run float b cs) now).1 ≡ true)
  unfolding run acquire
  run-healthy b [] now m t (e, good) h = ground arith
  run-healthy b (c ∷ cs) now m t g h =
      let (g', same) = step_healthy b c m t g h.0 in
      run-healthy (step float b c) cs now (rw same m) (rw same t) g' h.1

  -- When a failure is reported to a closed breaker with a threshold of at most 1, and the outcomes
  -- of the window, all recent, failures and fewer than 2^53, make up the minimum of requests with
  -- it, the breaker opens, and refuses every call until the open duration has passed.
  pub failure_trips :
      (b : CircuitBreaker float) (now later : ℕ)
      → b.state ≡ closed
      → All (λ o. now ≤ o.at + b.rolling_window) b.outcomes
      → All (λ o. o.success ≡ false) b.outcomes
      → b.minimum_requests ≤ length b.outcomes + 1
      → length b.outcomes + 1 < 2 ^ 53
      → le b.failure_threshold (of_int 1) ≡ true
      → later < now + b.open_duration
      → let c = record_outcome float b false now in
        (c.state ≡ open_circuit) × (acquire float c later ≡ (c, false))
  unfolding record_outcome record_closed acquire
  failure_trips b now later e fresh bad m k t l =
      let os = b.outcomes ++ record { at = now; success = false } ∷ [] in
      let kept =
        drop_stale_none b.rolling_window now os
          (All-append (λ o. now ≤ o.at + b.rolling_window) b.outcomes _ fresh (omega arith, tt)) in
      let n = length-append b.outcomes (record { at = now; success = false } ∷ []) in
      let full =
        full_share float b.failure_threshold os (omega (arith, n)) (omega (arith, n)) t
          (All-append (λ o. o.success ≡ false) b.outcomes _ bad (refl, tt)) in
      ground (arith, kept, n, full)
