-- ===== src/Resilience/Breaker/Invariant.antt =====
-- What holds of every breaker that the methods of breaker.go can reach.
use liveclass.Prelude.{ℕ, ◌≤◌, ◌<◌, ◌≡◌, ◌≢◌, ◌⊎◌, Bool, false, List, [], ◌∷◌, length, arith}
use liveclass.Resilience.Float.{Float64}
use liveclass.Resilience.Breaker.{
  closed, open_circuit, half_open, ok, BreakerConfig, CircuitBreaker, new_circuit_breaker, acquire,
  record_closed, record_half_open, record_outcome, over_threshold, Call, acquires, reports, step,
  run,
}

module _ {float : Float64} where
  -- The probe counters stay in range, and a closed breaker's window is under the threshold.
  pub record IsValid (b : CircuitBreaker float) : Type 0 where
    pub probes_pos : 0 < b.half_open_probes
    pub requests_pos : 0 < b.minimum_requests
    pub in_flight_le : b.half_open_in_flight ≤ b.half_open_probes
    pub success_lt : b.half_open_success < b.half_open_probes
    pub open_idle : b.state ≡ open_circuit → b.half_open_in_flight ≡ 0
    pub success_half_open : b.state ≢ half_open → b.half_open_success ≡ 0
    pub under_threshold :
        b.state ≡ closed
        → (length b.outcomes < b.minimum_requests)
          ⊎ (over_threshold float b.failure_threshold b.outcomes ≡ false)

  pub new-IsValid :
      (c : BreakerConfig float) (b : CircuitBreaker float)
      → new_circuit_breaker float c ≡ ok b
      → IsValid b
  unfolding new_circuit_breaker
  new-IsValid c b h = ground arith

  pub acquire-IsValid :
      (b : CircuitBreaker float) (now : ℕ) → IsValid b → IsValid (acquire float b now).0
  unfolding acquire
  acquire-IsValid b now v = ground arith

  record_half_open-IsValid :
      (b : CircuitBreaker float) (success : Bool) (now : ℕ)
      → IsValid b
      → b.state ≡ half_open
      → IsValid (record_half_open float b success now)
  unfolding record_half_open
  record_half_open-IsValid b success now v e = ground arith

  record_closed-IsValid :
      (b : CircuitBreaker float) (success : Bool) (now : ℕ)
      → IsValid b
      → b.state ≡ closed
      → IsValid (record_closed float b success now)
  unfolding record_closed
  record_closed-IsValid b success now v e = ground arith

  pub record_outcome-IsValid :
      (b : CircuitBreaker float) (success : Bool) (now : ℕ)
      → IsValid b
      → IsValid (record_outcome float b success now)
  unfolding record_outcome
  record_outcome-IsValid b success now v =
      ground
        (arith, record_half_open-IsValid b success now v, record_closed-IsValid b success now v)

  step-IsValid : (b : CircuitBreaker float) (c : ℕ × Call) → IsValid b → IsValid (step float b c)
  unfolding step
  step-IsValid b (now, acquires) v = acquire-IsValid b now v
  step-IsValid b (now, reports success) v = record_outcome-IsValid b success now v

  pub run-IsValid :
      (b : CircuitBreaker float) (cs : List (ℕ × Call)) → IsValid b → IsValid (run float b cs)
  unfolding run
  run-IsValid b [] v = v
  run-IsValid b (c ∷ cs) v = run-IsValid (step float b c) cs (step-IsValid b c v)

  -- A breaker that NewCircuitBreaker makes is valid after any history of calls and reports: its
  -- probe counters stay within the probe limit, an open breaker has no probe under way, successes
  -- of probes are counted in the half-open phase only, and a closed breaker's window is short of
  -- the minimum of requests or of the threshold.
  pub run-new_circuit_breaker-IsValid :
      (c : BreakerConfig float) (b : CircuitBreaker float) (cs : List (ℕ × Call))
      → new_circuit_breaker float c ≡ ok b
      → IsValid (run float b cs)
  run-new_circuit_breaker-IsValid c b cs h = run-IsValid b cs (new-IsValid c b h)
