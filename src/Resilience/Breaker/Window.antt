-- ===== src/Resilience/Breaker/Window.antt =====
-- The rolling window of a closed breaker, and when a report trips it.
use liveclass.Prelude.{
  ℕ, ◌+◌, ◌≤◌, ◌≡◌, refl, Bool, true, false, List, [], ◌∷◌, ◌++◌, length, arith, leb, if◌then◌else◌,
  All, keep_if,
}
use liveclass.Resilience.Float.{Float64}
use liveclass.Resilience.Breaker.{
  closed, open_circuit, Outcome, CircuitBreaker, drop_stale, count_failures, over_threshold,
  record_closed, record_outcome,
}

-- Times do not fall along the list, and start at `lo` at the earliest.
abbrev pub InOrder : ℕ → List Outcome → Type 0
InOrder lo [] = Unit {0}
InOrder lo (o ∷ os) = (lo ≤ o.at) × InOrder o.at os

-- The outcomes that are no older than the window.
abbrev pub within : ℕ → ℕ → List Outcome → List Outcome
within window now = keep_if (λ o. leb now (o.at + window))

module _ (window now : ℕ) where
  within-fresh :
      (lo : ℕ) (os : List Outcome) → InOrder lo os → now ≤ lo + window → within window now os ≡ os
  within-fresh lo [] h f = refl
  within-fresh lo (o ∷ os) h f = ground (arith, within-fresh o.at os h.1)

  -- On a list in order the loop keeps exactly the outcomes within the window.
  pub drop_stale-within :
      (lo : ℕ) (os : List Outcome) → InOrder lo os → drop_stale window now os ≡ within window now os
  unfolding drop_stale
  drop_stale-within lo [] h = refl
  drop_stale-within lo (o ∷ os) h =
      ground (arith, drop_stale-within o.at os h.1, within-fresh o.at os h.1)

InOrder-append :
    (lo : ℕ) (os : List Outcome) (now : ℕ) (s : Bool)
    → InOrder lo os
    → All (λ o. o.at ≤ now) os
    → lo ≤ now
    → InOrder lo (os ++ record { at = now; success = s } ∷ [])
InOrder-append lo [] now s h a l = (l, tt)
InOrder-append lo (o ∷ os) now s h a l = (h.0, InOrder-append o.at os now s h.1 a.1 a.0)

pub count_failures-le : (os : List Outcome) → count_failures os ≤ length os
unfolding count_failures
count_failures-le [] = omega arith
count_failures-le (o ∷ os) = ground (arith, count_failures-le os)

pub none_failed : (os : List Outcome) → All (λ o. o.success ≡ true) os → count_failures os ≡ 0
unfolding count_failures
none_failed [] h = refl
none_failed (o ∷ os) h = ground (arith, none_failed os h.1)

pub All-failed :
    (os : List Outcome) → All (λ o. o.success ≡ false) os → count_failures os ≡ length os
unfolding count_failures
All-failed [] h = refl
All-failed (o ∷ os) h = ground (arith, All-failed os h.1)

module _ (float : Float64) (b : CircuitBreaker float) (s : Bool) (now : ℕ) where
  abbrev pub after_report : List Outcome
  after_report = within b.rolling_window now (b.outcomes ++ record { at = now; success = s } ∷ [])

  -- A report to a closed breaker whose window is in the order of time and not from the future: it
  -- keeps exactly the outcomes within the rolling window, the new one among them, and trips exactly
  -- if they are at least the minimum of requests and the share of failures among them reaches the
  -- threshold.
  pub record_closed-window :
      b.state ≡ closed
      → InOrder 0 b.outcomes
      → All (λ o. o.at ≤ now) b.outcomes
      → ((record_outcome float b s now).outcomes ≡ after_report)
        × ((record_outcome float b s now).state ≡ (
            if leb b.minimum_requests (length after_report)
            then if over_threshold float b.failure_threshold after_report
              then open_circuit
              else closed
            else closed))
  unfolding record_outcome record_closed
  record_closed-window e order past =
      let w =
        drop_stale-within b.rolling_window now 0
          (b.outcomes ++ record { at = now; success = s } ∷ [])
          (InOrder-append 0 b.outcomes now s order past (omega arith)) in
      ground (arith, w)
