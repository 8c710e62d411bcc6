-- ===== src/Plan/Progress.antt =====
-- A plan does not get stuck, internal/rpc/agent/workflow/agent/plan_executor.go: as long as no step
-- has failed, `nextReadyStep` finds a step until all are done.
use liveclass.Prelude.{
  ◌≡◌, refl, sym, ap, ◌∙◌, true, false, ◌||◌, String, Option, none, some, List, [], ◌∷◌, All,
  All-lookup, Table, lookup, IsKeyed, lookup-rest, ◌==◌, string_eq, Bool-cases, some_inj, inl, inr,
  arith, beq_refl,
}
use liveclass.Plan.{TaskStatus, pending, running, done, failed, is_status, TaskStep, is_in}
use liveclass.Plan.Proposal.{
  is_done, all_done, is_open, no_ready_step, next_ready, next_ready_step, each_done,
}
use liveclass.Plan.Visits.{IsOrdered}
use liveclass.Plan.Accepts.{Ordering}
use liveclass.Plan.Ready.{shut, unreadable, starts, waits, next_ready-cases}

unfoldable pub keys_of : Table String TaskStep → List String
keys_of [] = []
keys_of ((k, s) ∷ t) = k ∷ keys_of t

abbrev some_or_nil : Option (List String) → List String
some_or_nil none = []
some_or_nil (some ds) = ds

-- The dependencies of a step of a plan, none for an unknown one.
unfoldable pub depends : Table String TaskStep → String → List String
depends t k = elim (lookup k t) [ none ↦ [] | some s ↦ some_or_nil s.depends_on ]

-- A plan's steps: no key twice, none failed, and only steps of the plan to depend on.
pub record IsUnderway (t : Table String TaskStep) : Type 0 where
  pub keyed : IsKeyed t
  pub none_failed : All (λ row. is_status row.1.status failed ≡ false) t
  pub closed : (k d : String) → is_in d (depends t k) ≡ true → is_in d (keys_of t) ≡ true

lookup-keys_of :
    (t : Table String TaskStep) (k : String) (s : TaskStep)
    → lookup k t ≡ some s
    → is_in k (keys_of t) ≡ true
unfolding lookup keys_of is_in
lookup-keys_of [] k s h = cc
lookup-keys_of ((j, x) ∷ t) k s h = ground (arith, lookup-keys_of t k s)

keys_of-lookup :
    (t : Table String TaskStep) (k : String)
    → is_in k (keys_of t) ≡ true
    → (s : TaskStep) × (lookup k t ≡ some s)
unfolding lookup keys_of is_in
keys_of-lookup [] k h = cc
keys_of-lookup ((j, x) ∷ t) k h = elim (Bool-cases (j == k)) [
  | inl hit ↦ (x, rw hit refl)
  | inr miss ↦ let (s, f) = keys_of-lookup t k (ground arith) in (s, rw miss f)
]

-- If no row is chosen, an open row waits for a dependency.
next_ready-waits :
    (all t : Table String TaskStep) (k : String) (s : TaskStep)
    → next_ready all t ≡ no_ready_step
    → lookup k t ≡ some s
    → is_open s ≡ true
    → all_done all (some_or_nil s.depends_on) ≡ false
unfolding lookup
next_ready-waits all [] k s h f o = cc
next_ready-waits all ((j, x) ∷ t) k s h f o = elim (next_ready-cases all t j x) [
  | unreadable e ↦ cc (e, h)
  | starts es p q g e ↦ cc (e, h)
  | shut p e ↦ elim (Bool-cases (j == k)) [
    | inl hit ↦ let same : x ≡ s = some_inj (ground arith) in cc (p, o, ap is_open same)
    | inr miss ↦ next_ready-waits all t k s (sym e ∙ h) (ground arith) o
  ]
  | waits es p g e ↦ elim (Bool-cases (j == k)) [
    | inl hit ↦
        let same : x ≡ s = some_inj (ground arith) in
        ap (λ (y : TaskStep). all_done all (some_or_nil y.depends_on)) (sym same)
        ∙ ap (λ o. all_done all (some_or_nil o)) p
        ∙ g
    | inr miss ↦ next_ready-waits all t k s (sym e ∙ h) (ground arith) o
  ]
]

all_done-each :
    (t : Table String TaskStep) (ds : List String)
    → ((d : String) → is_in d ds ≡ true → is_done t d ≡ true)
    → all_done t ds ≡ true
unfolding all_done is_in
all_done-each t [] h = refl
all_done-each t (d ∷ ds) h =
    rw (h d (ground (arith, beq_refl d))) (all_done-each t ds (λ x i. h x (ground (arith, i))))

each_done-all :
    (t : Table String TaskStep)
    → IsKeyed t
    → ((k : String) (s : TaskStep) → lookup k t ≡ some s → is_status s.status done ≡ true)
    → each_done t ≡ true
unfolding each_done lookup
each_done-all [] u h = refl
each_done-all ((j, x) ∷ t) u h =
    rw (h j x (rw (beq_refl j) refl))
      (each_done-all t u.1 (λ k s f. h k s (lookup-rest k j s x t u.0 f)))

status-cases :
    (s : TaskStep)
    → is_open s ≡ false
    → is_status s.status failed ≡ false
    → is_status s.status done ≡ true
status-cases s o f = of_status s.status o f
  where
    of_status :
        (x : TaskStatus)
        → (is_status x pending || is_status x running) ≡ false
        → is_status x failed ≡ false
        → is_status x done ≡ true
    of_status pending o f = cc
    of_status running o f = cc
    of_status done o f = refl
    of_status failed o f = cc

module _ (t : Table String TaskStep) (w : IsUnderway t)
    (idle : next_ready_step t ≡ no_ready_step) where
  ordered-done :
      (order : List String) (k : String) (s : TaskStep)
      → IsOrdered (depends t) (keys_of t) order
      → is_in k order ≡ true
      → lookup k t ≡ some s
      → is_status s.status done ≡ true
  unfolding is_in depends next_ready_step
  ordered-done [] k s o i f = cc
  ordered-done (x ∷ xs) k s o i f = elim (Bool-cases (x == k)) [
    | inr miss ↦ ordered-done xs k s o.1 (ground arith) f
    | inl hit ↦ elim (Bool-cases (is_open s)) [
      | inr e ↦
          status-cases s e
            (All-lookup (λ s. is_status s.status failed ≡ false) k s t w.none_failed f)
      | inl e ↦
          let same : x ≡ k = (string_eq.same_key_iff x k).0 hit in
          let waits = next_ready-waits t t k s idle f e in
          let deps : depends t k ≡ some_or_nil s.depends_on = rw (f, depends) refl in
          let all : all_done t (depends t k) ≡ true = all_done-each t (depends t k) (λ d j.
            let known = w.closed k d j in
            let (y, g) = keys_of-lookup t d known in
            let is = ordered-done xs d y o.1 (o.0 d (rw same j) known) g in rw (g, is_done) is) in
          cc (waits, ap (all_done t) deps, all)
    ]
  ]

  -- If a plan has no key twice, no failed step and only dependencies among its steps, and its steps
  -- can be ordered by their dependencies, then `nextReadyStep` reports that no step is ready only
  -- when all steps are done.
  pub next_ready_step-progress : Ordering (depends t) (keys_of t) → each_done t ≡ true
  next_ready_step-progress (order, (o, full)) =
      each_done-all t w.keyed
        (λ k s f. ordered-done order k s o (full k (lookup-keys_of t k s f)) f)
