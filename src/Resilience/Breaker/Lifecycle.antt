-- ===== src/Resilience/Breaker/Lifecycle.antt =====
-- How a breaker moves between its states: what is refused, how it recovers, what trips it.
use liveclass.Prelude.{
  ℕ, ◌+◌, ◌<◌, ◌≡◌, ◌↔◌, ◌⊎◌, Bool, true, false, List, [], ◌∷◌, map, length, arith,
}
use liveclass.Resilience.Float.{Float64}
use liveclass.Resilience.Breaker.{
  closed, open_circuit, half_open, CircuitBreaker, Call, acquire, observed_state, record_half_open,
  record_outcome, done, reports, step, run,
}
use liveclass.Resilience.Breaker.Invariant.{IsValid}

-- Reports of success at the given times.
abbrev pub successes : List ℕ → List (ℕ × Call)
successes = map (λ t. (t, reports true))

module _ {float : Float64} where
  open float use {of_int, le}

  -- On a valid breaker a permit is granted exactly if the state that `State()` reports is closed,
  -- or is half-open while fewer probes are counted in flight than allowed.
  pub acquire-observed_state :
      (b : CircuitBreaker float) (now : ℕ)
      → IsValid b
      → ((acquire float b now).1 ≡ true) ↔ (
          (observed_state float b now ≡ closed)
          ⊎ ((observed_state float b now ≡ half_open)
              × (b.half_open_in_flight < b.half_open_probes)))
  unfolding acquire observed_state
  acquire-observed_state b now v = (λ h. ground arith, λ h. ground arith)

  -- The state that a granted call leaves is the one that `State()` reported before it.
  pub state-acquire :
      (b : CircuitBreaker float) (now : ℕ)
      → IsValid b
      → (acquire float b now).1 ≡ true
      → (acquire float b now).0.state ≡ observed_state float b now
  unfolding acquire observed_state
  state-acquire b now v h = ground arith

  step_success :
      (b : CircuitBreaker float) (t : ℕ)
      → b.state ≡ half_open
      → b.half_open_success + 1 < b.half_open_probes
      → let c = step float b (t, reports true) in
        (c.state ≡ half_open)
        × (c.half_open_success ≡ b.half_open_success + 1)
        × (c.half_open_probes ≡ b.half_open_probes)
  unfolding step record_outcome record_half_open
  step_success b t e h = ground arith

  step_last :
      (b : CircuitBreaker float) (t : ℕ)
      → b.state ≡ half_open
      → b.half_open_success + 1 ≡ b.half_open_probes
      → let c = step float b (t, reports true) in (c.state ≡ closed) × (c.outcomes ≡ [])
  unfolding step record_outcome record_half_open
  step_last b t e h = ground arith

  -- A half-open breaker that is reported exactly the successes that it still lacks of its number of
  -- probes is closed, with an empty window.
  pub run-successes :
      (b : CircuitBreaker float) (t : ℕ) (ts : List ℕ)
      → b.state ≡ half_open
      → b.half_open_success + length (t ∷ ts) ≡ b.half_open_probes
      → let c = run float b (successes (t ∷ ts)) in (c.state ≡ closed) × (c.outcomes ≡ [])
  unfolding run
  run-successes b t [] e h = step_last b t e (omega arith)
  run-successes b t (u ∷ ts) e h =
      let s = step_success b t e (omega arith) in
      run-successes (step float b (t, reports true)) u ts s.0 (omega (arith, s))

  -- A failure reported to a half-open breaker opens it, and until the open duration has passed
  -- since the report every call is refused and changes nothing.
  pub probe_failure :
      (b : CircuitBreaker float) (now later : ℕ)
      → b.state ≡ half_open
      → later < now + b.open_duration
      → let c = record_outcome float b false now in
        (c.state ≡ open_circuit) × (acquire float c later ≡ (c, false))
  unfolding record_outcome record_half_open acquire
  probe_failure b now later e h = ground arith

  -- A permit reports once: whatever is reported through it again changes nothing.
  pub done-done :
      (used : Bool) (b : CircuitBreaker float) (s s' : Bool) (t t' : ℕ)
      → let (used', c) = done float used b s t in done float used' c s' t' ≡ (true, c)
  unfolding done
  done-done used b s s' t t' = ground arith
