-- ===== src/Plan/Moves.antt =====
-- What the executor's writes make of the plan, internal/rpc/agent/workflow/agent/plan_executor.go:
-- a start keeps the number of steps that are left, and a finished step is one less.
use liveclass.Prelude.{
  ℕ, suc, ◌+◌, ◌-◌, ◌≤◌, ◌≡◌, ◌⊎◌, refl, sym, ap, ◌∙◌, true, ◌||◌, String, some, lookup,
  lookup-put_self, IsKeyed, put-IsKeyed, string_eq, int_eq, nat_eq, if◌then◌else◌, some_inj, inl,
  inr, arith,
}
use liveclass.Plan.{
  TaskStatus, pending, running, done, failed, is_status, TaskStep, TaskPlan, PlanDb, Result, ok,
  err, valid_task_transition,
}
use liveclass.Plan.Writes.{count_open, one_open, count_open-put, Updated}
use liveclass.Plan.Executor.{DbReply, fine, fails, unseen, wrote, written, db_of}

-- The plan has no key twice, and at most so many steps that are not done and not failed.
abbrev pub Fits : ℕ → ℕ → PlanDb → Type 0
Fits id n db =
    (p : TaskPlan) → lookup id db.plans ≡ some p → IsKeyed p.steps × (count_open p.steps ≤ n)

-- A step of the plan is running.
pub record IsRunning (id : ℕ) (k : String) (db : PlanDb) : Type 0 where
  pub plan : TaskPlan
  pub step : TaskStep
  pub found : lookup id db.plans ≡ some plan
  pub row : lookup k plan.steps ≡ some step
  pub runs : step.status ≡ running

pub written-ok :
    (r : DbReply) (db d : PlanDb) (res : Result PlanDb) → written r db res ≡ wrote d → res ≡ ok d
written-ok fine db d (ok x) h = ap (λ w. ok (db_of w)) h
written-ok fine db d (err e) h = cc
written-ok fails db d (ok x) h = cc
written-ok fails db d (err e) h = cc
written-ok unseen db d (ok x) h = cc
written-ok unseen db d (err e) h = cc

pub db_of-written :
    (r : DbReply) (db : PlanDb) (res : Result PlanDb)
    → (db_of (written r db res) ≡ db) ⊎ (res ≡ ok (db_of (written r db res)))
db_of-written fine db (ok x) = inr refl
db_of-written fine db (err e) = inl refl
db_of-written fails db (ok x) = inl refl
db_of-written fails db (err e) = inl refl
db_of-written unseen db (ok x) = inr refl
db_of-written unseen db (err e) = inl refl

valid-running :
    (x : TaskStatus)
    → valid_task_transition x running ≡ true
    → (is_status x pending || is_status x running) ≡ true
unfolding valid_task_transition
valid-running pending h = refl
valid-running running h = refl
valid-running done h = cc
valid-running failed h = cc

pub is_status-running : (x : TaskStatus) → is_status x running ≡ true → x ≡ running
is_status-running pending h = cc
is_status-running running h = refl
is_status-running done h = cc
is_status-running failed h = cc

module _ (id : ℕ) (k : String) (db d : PlanDb) where
  pub Updated-IsKeyed :
      (next : TaskStatus) (n : ℕ)
      → Updated id k next db d
      → Fits id n db
      → (p : TaskPlan) → lookup id d.plans ≡ some p
      → IsKeyed p.steps
  Updated-IsKeyed next n u f p g =
      let same : u.after ≡ p = some_inj (sym u.stored ∙ g) in
      rw (← same, u.steps) (put-IsKeyed k _ u.before.steps (f u.before u.found).0)

  Updated-count :
      (next : TaskStatus)
      → (u : Updated id k next db d) → (p : TaskPlan) → lookup id d.plans ≡ some p
      → count_open p.steps + one_open u.old
        ≡ count_open u.before.steps + one_open (record (u.old) { status = next })
  Updated-count next u p g =
      let same : u.after ≡ p = some_inj (sym u.stored ∙ g) in
      rw (← same, u.steps) (count_open-put u.before.steps k _ u.old u.row)

  pub started-Fits :
      (n : ℕ) → Updated id k running db d → Fits id n db → Fits id n d × IsRunning id k d
  started-Fits n u f = (
    λ p g. (
      Updated-IsKeyed running n u f p g,
      ground (
        arith,
        Updated-count running u p g,
        valid-running u.old.status u.valid,
        (f u.before u.found).1,
      ),
    ),
    record {
      plan = u.after;
      step = record (u.old) { status = running };
      found = u.stored;
      row = rw (u.steps) (lookup-put_self k _ u.before.steps);
      runs = refl;
    },
  )

  pub finished-Fits :
      (n : ℕ)
      → IsRunning id k db
      → Updated id k done db d
      → Fits id n db
      → (m : ℕ) × ((n ≡ suc m) × Fits id m d)
  finished-Fits n i u f =
      let plan : i.plan ≡ u.before = some_inj (sym i.found ∙ u.found) in
      let row : i.step ≡ u.old =
        some_inj (sym i.row ∙ ap (λ (x : TaskPlan). lookup k x.steps) plan ∙ u.row) in
      let was : u.old.status ≡ running = ap (λ (x : TaskStep). x.status) (sym row) ∙ i.runs in
      let opened : one_open u.old ≡ 1 =
        ap (λ x. if is_status x pending || is_status x running then 1 else 0) was in
      (
        n - 1,
        (
          omega (arith, Updated-count done u u.after u.stored, opened, (f u.before u.found).1),
          λ p g. (
            Updated-IsKeyed done n u f p g,
            omega (arith, Updated-count done u p g, opened, (f u.before u.found).1),
          ),
        ),
      )
