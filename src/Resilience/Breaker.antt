-- ===== src/Resilience/Breaker.antt =====
-- internal/resilience/breaker.go. A method that changes the breaker returns the new one; the clock
-- `b.now()` is an argument, read once under the mutex, so each method is one atomic step. Negative
-- counts and durations, which the constructor refuses as it refuses 0, have no representation.
pub mod Invariant
pub mod Window
pub mod Lifecycle
pub mod Trips
use liveclass.Prelude.{
  ℕ, suc, ◌+◌, ◌-◌, Bool, true, false, not, ◌||◌, List, [], ◌∷◌, ◌++◌, Option, none, some, String,
  length, ltb, leb, if◌then◌else◌, ◌==◌, string_eq,
}
use liveclass.Resilience.Float.{Float64}

pub data State : Type 0 where
  closed open_circuit half_open : State

pub data Error : Type 0 where
  circuit_open : Error
  dependency_required : Error
  not_positive : Error
  bad_threshold : Error

pub data Result (A : Type 0) : Type 0 where
  err : Error → Result A
  ok : A → Result A

pub record Outcome : Type 0 where
  pub at : ℕ
  pub success : Bool

-- A caller of the breaker: it asks for a permit, or reports an outcome.
pub data Call : Type 0 where
  acquires : Call
  reports : Bool → Call

-- The loop that skips the outcomes before `now - RollingWindow`.
unfoldable pub drop_stale : ℕ → ℕ → List Outcome → List Outcome
drop_stale window now [] = []
drop_stale window now (o ∷ os) = elim (ltb (o.at + window) now) [
  | true ↦ drop_stale window now os
  | false ↦ o ∷ os
]

unfoldable pub count_failures : List Outcome → ℕ
count_failures [] = 0
count_failures (o ∷ os) = if not o.success then suc (count_failures os) else count_failures os

module _ (float : Float64) where
  open float use {F, of_int, div, le, lt}

  pub record BreakerConfig : Type 0 where
    pub dependency : String
    pub rolling_window : ℕ
    pub minimum_requests : ℕ
    pub failure_threshold : F
    pub open_duration : ℕ
    pub half_open_probes : ℕ

  pub record CircuitBreaker : Type 0 where
    pub cfg : BreakerConfig
    pub open cfg use *
    pub state : State
    pub opened_at : ℕ
    pub outcomes : List Outcome
    pub half_open_in_flight : ℕ
    pub half_open_success : ℕ
    pub open_total : ℕ  -- breakerOpenTotal

  unfoldable pub new_circuit_breaker : BreakerConfig → Result CircuitBreaker
  new_circuit_breaker c =
      if c.dependency == ""
      then err dependency_required
      else if leb c.rolling_window 0
          || (leb c.minimum_requests 0 || (leb c.open_duration 0 || leb c.half_open_probes 0))
      then err not_positive
      else if le c.failure_threshold (of_int 0) || lt (of_int 1) c.failure_threshold
      then err bad_threshold
      else ok (record {
        cfg = c;
        state = closed;
        opened_at = 0;
        outcomes = [];
        half_open_in_flight = 0;
        half_open_success = 0;
        open_total = 0;
      })

  -- `open`
  unfoldable pub trip : CircuitBreaker → ℕ → CircuitBreaker
  trip b now = record b {
    state = open_circuit;
    opened_at = now;
    half_open_in_flight = 0;
    half_open_success = 0;
    open_total = b.open_total + 1;
  }

  -- The second half of `Acquire`, entered in the half-open state.
  unfoldable pub acquire_probe : CircuitBreaker → Option CircuitBreaker
  acquire_probe b =
      if leb b.half_open_probes b.half_open_in_flight
      then none
      else some (record b { half_open_in_flight = b.half_open_in_flight + 1 })

  -- What `Acquire` leaves when it refuses, and whether it grants a permit.
  abbrev probe_result : CircuitBreaker → Option CircuitBreaker → CircuitBreaker × Bool
  probe_result b none = (b, false)
  probe_result b (some c) = (c, true)

  abbrev enter_half_open : CircuitBreaker → CircuitBreaker
  enter_half_open b = record b { state = half_open; half_open_in_flight = 0; half_open_success = 0 }

  acquire_in : State → CircuitBreaker → ℕ → CircuitBreaker × Bool
  unfolding acquire_probe
  acquire_in open_circuit b now =
      if ltb now (b.opened_at + b.open_duration)
      then (b, false)
      else let h = enter_half_open b in probe_result h (acquire_probe h)
  acquire_in half_open b now = probe_result b (acquire_probe b)
  acquire_in closed b now = (b, true)

  -- `Acquire`: `true` is a permit, `false` is ErrCircuitOpen.
  unfoldable pub acquire : CircuitBreaker → ℕ → CircuitBreaker × Bool
  unfolding acquire_in
  acquire b now = acquire_in b.state b now

  -- `State()`
  unfoldable pub observed_state : CircuitBreaker → ℕ → State
  observed_state b now = elim b.state [
    | open_circuit ↦ if ltb now (b.opened_at + b.open_duration) then open_circuit else half_open
    | closed ↦ closed
    | half_open ↦ half_open
  ]

  -- The failures reach the threshold.
  unfoldable pub over_threshold : F → List Outcome → Bool
  over_threshold t os = le t (div (of_int (count_failures os)) (of_int (length os)))

  -- The part of `record` that runs in the closed state.
  unfoldable pub record_closed : CircuitBreaker → Bool → ℕ → CircuitBreaker
  unfolding trip
  record_closed b success now =
      let recent =
        drop_stale b.rolling_window now
          (b.outcomes ++ record { at = now; success = success } ∷ []) in
      let b' = record b { outcomes = recent } in
      if ltb (length recent) b.minimum_requests
      then b'
      else if over_threshold b.failure_threshold recent
      then trip b' now
      else b'

  -- The part of `record` that runs in the half-open state; `-` on ℕ is the guarded decrement.
  unfoldable pub record_half_open : CircuitBreaker → Bool → ℕ → CircuitBreaker
  unfolding trip
  record_half_open b success now =
      let b' = record b { half_open_in_flight = b.half_open_in_flight - 1 } in
      if not success
      then trip b' now
      else if leb b.half_open_probes (b.half_open_success + 1)
      then record b' { state = closed; outcomes = []; half_open_success = 0 }
      else record b' { half_open_success = b.half_open_success + 1 }

  -- `record`
  unfoldable pub record_outcome : CircuitBreaker → Bool → ℕ → CircuitBreaker
  record_outcome b success now = elim b.state [
    | half_open ↦ record_half_open b success now
    | open_circuit ↦ b
    | closed ↦ record_closed b success now
  ]

  -- `Permit.Done`, under the permit's `sync.Once`: the flag is whether it has run before.
  unfoldable pub done : Bool → CircuitBreaker → Bool → ℕ → Bool × CircuitBreaker
  done used b success now = if used then (true, b) else (true, record_outcome b success now)

  unfoldable pub step : CircuitBreaker → ℕ × Call → CircuitBreaker
  step b (now, acquires) = (acquire b now).0
  step b (now, reports success) = record_outcome b success now

  unfoldable pub run : CircuitBreaker → List (ℕ × Call) → CircuitBreaker
  run b [] = b
  run b (c ∷ cs) = run (step b c) cs
