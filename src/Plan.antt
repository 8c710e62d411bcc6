-- ===== src/Plan.antt =====
-- The task plans of the assistant, internal/rpc/agent/memory/task_plan.go over the tables TaskPlan and
-- TaskStep of internal/rpc/agent/model/session.go. The unique index on plan and step key makes the
-- steps of a plan a table by key, in the order of their ids; the JSON column depends_on is the list
-- that it decodes to, or none for a text that decodes to no such list. A transaction that returns an
-- error leaves the database as it was; what the driver itself reports is left to the callers.
pub mod Proposal
pub mod Visits
pub mod Fuel
pub mod Cycles
pub mod Accepts
pub mod Counts
pub mod Ready
pub mod Progress
pub mod Executor
pub mod Opening
pub mod Writes
pub mod Revisions
pub mod Moves
pub mod Rounds
pub mod Loop
pub mod Limit
pub mod Tests
use liveclass.Prelude.{
  ℕ, zero, suc, ◌+◌, Bool, true, false, not, ◌&&◌, ◌||◌, String, Option, none, some, List, [], ◌∷◌,
  length, ltb, Table, lookup, put, ◌==◌, int_eq, nat_eq, string_eq, nat_beq, if◌then◌else◌,
}
use liveclass.Prelude.Int.{ℤ, is_positive}

pub data TaskStatus : Type 0 where
  pending running done failed : TaskStatus

abbrev pub is_status : TaskStatus → TaskStatus → Bool
is_status pending pending = true
is_status running running = true
is_status done done = true
is_status failed failed = true
is_status _ _ = false

pub record TaskStep : Type 0 where
  pub description : String
  pub status : TaskStatus
  pub depends_on : Option (List String)

pub record TaskPlan : Type 0 where
  pub user_id : ℤ
  pub session_id : String
  pub request_id : String
  pub goal : String
  pub status : TaskStatus
  pub steps : Table String TaskStep

pub record NewTaskStep : Type 0 where
  pub key : String
  pub description : String
  pub depends_on : Option (List String)

pub data PlanError : Type 0 where
  plan_requires not_found empty_field duplicate_step : PlanError
  invalid_status invalid_dependencies dependencies_incomplete : PlanError
  invalid_transition : TaskStatus → TaskStatus → PlanError
  invalid_revision no_unfinished_steps : PlanError

pub data Result (A : Type 0) : Type 0 where
  err : PlanError → Result A
  ok : A → Result A

-- The loop of `CreateTaskPlan` and of `ReviseTaskPlan` over the new steps, which skips the ones that
-- are done: the steps, and how many were inserted.
unfoldable pub insert_steps :
    (String → Bool)
    → List NewTaskStep
    → Table String TaskStep
    → ℕ
    → Result (Table String TaskStep × ℕ)
insert_steps skipped [] t n = ok (t, n)
insert_steps skipped (s ∷ ss) t n = elim (skipped s.key) [
  | true ↦ insert_steps skipped ss t n
  | false ↦ elim (s.key == "" || s.description == "") [
    | true ↦ err empty_field
    | false ↦ elim (lookup s.key t) [
      | some old ↦ err duplicate_step
      | none ↦ insert_steps skipped ss (put s.key (new_step s) t) (n + 1)
    ]
  ]
]
  where
    new_step : NewTaskStep → TaskStep
    new_step s = record { description = s.description; status = pending; depends_on = s.depends_on }

pub record PlanDb : Type 0 where
  pub plans : Table ℕ TaskPlan
  pub next_id : ℕ

-- A transaction's end: the plan as it leaves it, or the error.
abbrev pub store_plan : ℕ → PlanDb → Result TaskPlan → Result PlanDb
store_plan id db (err e) = err e
store_plan id db (ok p') = ok (record db { plans = put id p' db.plans })

-- The plan of a session's request.
unfoldable pub find_plan : String → String → Table ℕ TaskPlan → Option (ℕ × TaskPlan)
find_plan session request [] = none
find_plan session request ((k, p) ∷ t) =
    if p.session_id == session && p.request_id == request
    then some (k, p)
    else find_plan session request t

-- CreateTaskPlan: the id of the plan.
unfoldable pub create_task_plan :
    ℤ → String → String → String → List NewTaskStep → PlanDb → Result (PlanDb × ℕ)
create_task_plan user session request goal steps db =
    if not (is_positive user)
      || (session == "" || (request == "" || (goal == "" || ltb (length steps) 2)))
    then err plan_requires
    else elim (find_plan session request db.plans) [
      | some (k, p) ↦ ok (db, k)
      | none ↦ elim (insert_steps (λ k. false) steps [] 0) [
        | err e ↦ err e
        | ok (t, n) ↦ ok (
          record { plans = put db.next_id (new_plan t) db.plans; next_id = db.next_id + 1 },
          db.next_id,
        )
      ]
    ]
  where
    new_plan : Table String TaskStep → TaskPlan
    new_plan t = record {
      user_id = user;
      session_id = session;
      request_id = request;
      goal = goal;
      status = pending;
      steps = t;
    }

unfoldable pub valid_task_transition : TaskStatus → TaskStatus → Bool
valid_task_transition current next = if is_status current next then true else elim current [
  | pending ↦ is_status next running || is_status next failed
  | running ↦ is_status next done || is_status next failed
  | done ↦ false
  | failed ↦ false
]

-- `step_key IN ?`
unfoldable pub is_in : String → List String → Bool
is_in k [] = false
is_in k (x ∷ xs) = x == k || is_in k xs

-- The steps of a plan that pass a test.
unfoldable pub count_steps : (String → TaskStep → Bool) → Table String TaskStep → ℕ
count_steps p [] = 0
count_steps p ((k, s) ∷ t) = if p k s then count_steps p t + 1 else count_steps p t

-- The check of the dependencies of a step that is to run.
unfoldable pub check_dependencies : Option (List String) → Table String TaskStep → Option PlanError
check_dependencies none t = some invalid_dependencies
check_dependencies (some ds) t =
    if ltb 0 (length ds)
      && not (nat_beq (count_steps (λ k s. is_in k ds && is_status s.status done) t) (length ds))
    then some dependencies_incomplete
    else none

-- What UpdateTaskStep makes of the plan's status.
unfoldable pub plan_status : Table String TaskStep → TaskStatus
plan_status t =
    if ltb 0 (count_steps (λ k s. is_status s.status failed) t)
    then failed
    else if nat_beq
        (count_steps (λ k s. not (is_status s.status done || is_status s.status failed)) t) 0
    then done
    else running

-- The part of `UpdateTaskStep` after the plan and the step are found.
unfoldable pub update_found : String → TaskStatus → TaskStep → TaskPlan → Result TaskPlan
update_found key next s p =
    if not (valid_task_transition s.status next)
    then err (invalid_transition s.status next)
    else elim (if is_status next running then check_dependencies s.depends_on p.steps else none) [
      | some e ↦ err e
      | none ↦
          let t = put key (record s { status = next }) p.steps in
          ok (record p { steps = t; status = plan_status t })
    ]

-- UpdateTaskStep
unfoldable pub update_task_step : ℤ → ℕ → String → TaskStatus → PlanDb → Result PlanDb
update_task_step user id key next db =
    if is_status next pending then err invalid_status else elim (lookup id db.plans) [
      | none ↦ err not_found
      | some p ↦ if not (p.user_id == user) then err not_found else elim (lookup key p.steps) [
        | none ↦ err not_found
        | some s ↦ elim (update_found key next s p) [
          | err e ↦ err e
          | ok p' ↦ ok (record db { plans = put id p' db.plans })
        ]
      ]
    ]

-- The steps that are done.
unfoldable pub done_steps : Table String TaskStep → Table String TaskStep
done_steps [] = []
done_steps ((k, s) ∷ t) = if is_status s.status done then (k, s) ∷ done_steps t else done_steps t

abbrev pub has_step : Table String TaskStep → String → Bool
has_step t k = elim (lookup k t) [ none ↦ false | some s ↦ true ]

-- The part of `ReviseTaskPlan` after the plan is found.
unfoldable pub revise_found : List NewTaskStep → TaskPlan → Result TaskPlan
revise_found steps p =
    let kept = done_steps p.steps in
    elim (insert_steps (has_step kept) steps kept 0) [
      | err e ↦ err e
      | ok (t, n) ↦
          if nat_beq n 0
          then err no_unfinished_steps
          else ok (record p { steps = t; status = pending })
    ]

-- ReviseTaskPlan
unfoldable pub revise_task_plan : ℤ → ℕ → List NewTaskStep → PlanDb → Result PlanDb
revise_task_plan user id steps db =
    if nat_beq (length steps) 0 then err invalid_revision else elim (lookup id db.plans) [
      | none ↦ err not_found
      | some p ↦ if not (p.user_id == user) then err not_found else elim (revise_found steps p) [
        | err e ↦ err e
        | ok p' ↦ ok (record db { plans = put id p' db.plans })
      ]
    ]
