-- ===== src/Plan/Ready.antt =====
-- The choice of the next step, internal/rpc/agent/workflow/agent/plan_executor.go, and its start by
-- UpdateTaskStep, internal/rpc/agent/memory/task_plan.go.
use liveclass.Prelude.{
  ℕ, ◌≡◌, refl, sym, ap, ◌∙◌, true, false, ◌||◌, String, none, some, List, [], ◌∷◌, Table, lookup,
  put, lookup-put_self, IsKeyed, lookup-rest, ◌==◌, string_eq, int_eq, nat_eq, Bool-cases,
  Option-cases, some_inj, inl, inr, beq_refl,
}
use liveclass.Prelude.Int.{ℤ}
use liveclass.Plan.{
  TaskStatus, pending, running, done, failed, is_status, TaskStep, TaskPlan, PlanDb, ok, err,
  dependencies_incomplete, check_dependencies, valid_task_transition, plan_status, update_found,
  update_task_step, store_plan,
}
use liveclass.Plan.Proposal.{
  all_done, is_open, Ready, ready, undecodable, no_ready_step, next_ready, next_ready_step,
}
use liveclass.Plan.Counts.{repeats, check_dependencies-repeats, check_dependencies-all_done}

-- A user's plan in the database.
pub record OwnsPlan (user : ℤ) (id : ℕ) (db : PlanDb) (p : TaskPlan) : Type 0 where
  pub plan : lookup id db.plans ≡ some p
  pub owner : p.user_id ≡ user
  pub keyed : IsKeyed p.steps

-- A step of a plan that is neither done nor failed, with its dependencies.
pub record HasStep (key : String) (p : TaskPlan) (s : TaskStep) (ds : List String) : Type 0 where
  pub step : lookup key p.steps ≡ some s
  pub unfinished : is_open s ≡ true
  pub depends : s.depends_on ≡ some ds

update-found :
    (user : ℤ) (id : ℕ) (key : String) (db : PlanDb) (p : TaskPlan) (s : TaskStep)
    (ds : List String)
    → OwnsPlan user id db p
    → HasStep key p s ds
    → update_task_step user id key running db ≡ store_plan id db (update_found key running s p)
unfolding update_task_step
update-found user id key db p s ds o h =
    let mine : (p.user_id == user) ≡ true =
      ap (λ x. p.user_id == x) (sym o.owner) ∙ beq_refl p.user_id in
    rw (o.plan, mine, h.step, update_task_step) refl

open_status :
    (x : TaskStatus)
    → (is_status x pending || is_status x running) ≡ true
    → valid_task_transition x running ≡ true
unfolding valid_task_transition
open_status pending o = refl
open_status running o = refl
open_status done o = cc
open_status failed o = cc

-- What starts a step: the check of its dependencies.
start-check :
    (key : String) (p : TaskPlan) (s : TaskStep) (ds : List String)
    → is_open s ≡ true
    → s.depends_on ≡ some ds
    → update_found key running s p ≡ elim (check_dependencies (some ds) p.steps) [
      | some e ↦ err e
      | none ↦
          let t = put key (record s { status = running }) p.steps in
          ok (record p { steps = t; status = plan_status t })
    ]
unfolding update_found
start-check key p s ds o d = rw (open_status s.status o, d, update_found) refl

-- A step of a user's plan that is neither done nor failed, and whose dependencies name a key twice,
-- cannot be started: UpdateTaskStep reports that its dependencies are not complete, whichever steps
-- are done.
pub update_task_step-repeats :
    (user : ℤ) (id : ℕ) (key : String) (db : PlanDb) (p : TaskPlan) (s : TaskStep)
    (ds : List String)
    → OwnsPlan user id db p
    → HasStep key p s ds
    → repeats ds ≡ true
    → update_task_step user id key running db ≡ err dependencies_incomplete
update_task_step-repeats user id key db p s ds o h r =
    update-found user id key db p s ds o h
    ∙ rw
        (
          start-check key p s ds h.unfinished h.depends,
          check_dependencies-repeats p.steps ds o.keyed r,
        )
        refl

ready_key : String → Ready → String
ready_key j (ready k s) = k
ready_key j undecodable = j
ready_key j no_ready_step = j

ready_step : TaskStep → Ready → TaskStep
ready_step x (ready k s) = s
ready_step x undecodable = x
ready_step x no_ready_step = x

-- What the loop does at a row.
pub data NextCase (all t : Table String TaskStep) (j : String) (x : TaskStep) : Type 0 where
  shut : is_open x ≡ false → next_ready all ((j, x) ∷ t) ≡ next_ready all t → NextCase all t j x
  unreadable : next_ready all ((j, x) ∷ t) ≡ undecodable → NextCase all t j x
  starts :
      (es : List String)
      → is_open x ≡ true
      → x.depends_on ≡ some es
      → all_done all es ≡ true
      → next_ready all ((j, x) ∷ t) ≡ ready j x
      → NextCase all t j x
  waits :
      (es : List String)
      → x.depends_on ≡ some es
      → all_done all es ≡ false
      → next_ready all ((j, x) ∷ t) ≡ next_ready all t
      → NextCase all t j x

pub next_ready-cases :
    (all t : Table String TaskStep) (j : String) (x : TaskStep) → NextCase all t j x
unfolding next_ready
next_ready-cases all t j x = elim (Bool-cases (is_open x)) [
  | inr e ↦ shut e (rw (e, next_ready) refl)
  | inl e ↦ elim (Option-cases x.depends_on) [
    | inl f ↦ unreadable (rw (e, f, next_ready) refl)
    | inr (es, f) ↦ elim (Bool-cases (all_done all es)) [
      | inl g ↦ starts es e f g (simp (e, f, g, next_ready))
      | inr g ↦ waits es f g (rw (e, f, g, next_ready) refl)
    ]
  ]
]

-- The step that is found is a row that is not done, with its dependencies done.
pub next_ready-ready :
    (all t : Table String TaskStep) (k : String) (s : TaskStep)
    → IsKeyed t
    → next_ready all t ≡ ready k s
    → (lookup k t ≡ some s)
      × ((is_open s ≡ true)
          × ((es : List String) × ((s.depends_on ≡ some es) × (all_done all es ≡ true))))
unfolding next_ready lookup ready_key ready_step
next_ready-ready all [] k s u h = cc
next_ready-ready all ((j, x) ∷ t) k s u h = elim (next_ready-cases all t j x) [
  | shut o e ↦
      let (a, b) = next_ready-ready all t k s u.1 (sym e ∙ h) in (lookup-rest k j s x t u.0 a, b)
  | unreadable e ↦ cc (e, h)
  | waits es f g e ↦
      let (a, b) = next_ready-ready all t k s u.1 (sym e ∙ h) in (lookup-rest k j s x t u.0 a, b)
  | starts es o f g e ↦
      let this : ready j x ≡ ready k s = sym e ∙ h in
      let key : j ≡ k = ap (ready_key j) this in
      let row : x ≡ s = ap (ready_step x) this in
      (
        rw (ap (λ y. y == k) key, beq_refl k) (ap some row),
        (ap is_open (sym row) ∙ o, (es, (ap (λ (y : TaskStep). y.depends_on) (sym row) ∙ f, g))),
      )
]

-- If the dependencies of the step that `nextReadyStep` finds in a user's plan name no key twice,
-- UpdateTaskStep accepts that the user starts the step, which is then running.
pub next_ready_step-starts :
    (user : ℤ) (id : ℕ) (key : String) (db : PlanDb) (p : TaskPlan) (s : TaskStep)
    (ds : List String)
    → OwnsPlan user id db p
    → next_ready_step p.steps ≡ ready key s
    → s.depends_on ≡ some ds
    → repeats ds ≡ false
    → (p' : TaskPlan) × ((update_task_step user id key running db
          ≡ ok (record db { plans = put id p' db.plans }))
        × (lookup key p'.steps ≡ some (record s { status = running })))
unfolding next_ready_step
next_ready_step-starts user id key db p s ds o found d r =
    let (a, (b, (es, (f, g)))) = next_ready-ready p.steps p.steps key s o.keyed found in
    let c : all_done p.steps ds ≡ true = ap (all_done p.steps) (some_inj (sym d ∙ f)) ∙ g in
    let h : HasStep key p s ds = record { step = a; unfinished = b; depends = d } in
    let t = put key (record s { status = running }) p.steps in
    (
      record p { steps = t; status = plan_status t },
      (
        update-found user id key db p s ds o h
            ∙ rw (start-check key p s ds b d, check_dependencies-all_done p.steps ds o.keyed r, c)
                refl,
        lookup-put_self key (record s { status = running }) p.steps,
      ),
    )
