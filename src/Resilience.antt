-- ===== src/Resilience.antt =====
-- internal/resilience: the circuit breaker that guards a dependency, and the executor that calls a
-- dependency with retries under it. Times and durations are nanoseconds of the monotonic clock.
pub mod Float
pub mod Breaker
pub mod Executor
mod Tests
