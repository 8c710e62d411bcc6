-- ===== src/Plan/Writes.antt =====
-- What the transactions of internal/rpc/agent/memory/task_plan.go leave in the database.
use liveclass.Prelude.{
  ℕ, ◌+◌, ◌≤◌, ◌≡◌, refl, sym, ap, ◌∙◌, true, false, not, String, Option, none, some, [], ◌∷◌,
  Table, lookup, put, lookup-put_self, ◌==◌, string_eq, int_eq, nat_eq, if◌then◌else◌, if_holds,
  Bool-cases, some_inj, inl, inr, arith,
}
use liveclass.Prelude.Int.{ℤ}
use liveclass.Plan.{
  TaskStatus, pending, running, is_status, TaskStep, TaskPlan, PlanDb, Result, ok, err, PlanError,
  not_found, check_dependencies, count_steps, valid_task_transition, plan_status, update_found,
  update_task_step, store_plan,
}
use liveclass.Plan.Proposal.{is_open}

abbrev pub count_open : Table String TaskStep → ℕ
count_open = count_steps (λ k s. is_open s)

abbrev pub one_open : TaskStep → ℕ
one_open s = if is_open s then 1 else 0

pub count_open-put :
    (t : Table String TaskStep) (k : String) (v old : TaskStep)
    → lookup k t ≡ some old
    → count_open (put k v t) + one_open old ≡ count_open t + one_open v
unfolding count_steps put lookup
count_open-put [] k v old h = cc
count_open-put ((j, x) ∷ t) k v old h = elim (Bool-cases (j == k)) [
  | inl hit ↦ let same : x ≡ old = some_inj (ground arith) in ground (arith, hit, ap is_open same)
  | inr miss ↦ ground (arith, miss, count_open-put t k v old (ground arith))
]

pub count_open-put-le :
    (t : Table String TaskStep) (k : String) (v : TaskStep)
    → count_open (put k v t) ≤ count_open t + 1
unfolding count_steps put
count_open-put-le [] k v = ground arith
count_open-put-le ((j, x) ∷ t) k v = ground (arith, count_open-put-le t k v)

pub ok_inj : {A : Type 0} {a b : A} → ok a ≡ ok b → a ≡ b
ok_inj {a = a} h = ap (λ r. elim r [ err e ↦ a | ok x ↦ x ]) h

-- What a plan is stored as.
pub store_plan-ok :
    (id : ℕ) (db db' : PlanDb) (r : Result TaskPlan)
    → store_plan id db r ≡ ok db'
    → (p' : TaskPlan) × ((r ≡ ok p') × (lookup id db'.plans ≡ some p'))
store_plan-ok id db db' (err e) h = cc
store_plan-ok id db db' (ok p') h = (
  p',
  (refl, ap (λ (d : PlanDb). lookup id d.plans) (sym (ok_inj h)) ∙ lookup-put_self id p' db.plans),
)

-- The plan before and after an update of a step.
pub record Updated (id : ℕ) (k : String) (next : TaskStatus) (db db' : PlanDb) : Type 0 where
  pub before : TaskPlan
  pub after : TaskPlan
  pub old : TaskStep
  pub found : lookup id db.plans ≡ some before
  pub row : lookup k before.steps ≡ some old
  pub valid : valid_task_transition old.status next ≡ true
  pub stored : lookup id db'.plans ≡ some after
  pub steps : after.steps ≡ put k (record old { status = next }) before.steps

update_found-ok :
    (k : String) (next : TaskStatus) (s : TaskStep) (p p' : TaskPlan)
    → update_found k next s p ≡ ok p'
    → (valid_task_transition s.status next ≡ true)
      × (p'.steps ≡ put k (record s { status = next }) p.steps)
unfolding update_found
update_found-ok k next s p p' =
    let Goal : Type 0 =
      (valid_task_transition s.status next ≡ true)
      × (p'.steps ≡ put k (record s { status = next }) p.steps) in
    if_holds (λ r. r ≡ ok p' → Goal) (not (valid_task_transition s.status next)) _ _
      (λ (e : not (valid_task_transition s.status next) ≡ true). λ h. cc)
      (λ (e : not (valid_task_transition s.status next) ≡ false).
        checked (ground (arith, e))
          (if is_status next running then check_dependencies s.depends_on p.steps else none))
  where
    checked :
        valid_task_transition s.status next ≡ true
        → (o : Option PlanError)
        → elim o [
          | some e ↦ err e
          | none ↦
              let t = put k (record s { status = next }) p.steps in
              ok (record p { steps = t; status = plan_status t })
        ]
          ≡ ok p'
        → (valid_task_transition s.status next ≡ true)
          × (p'.steps ≡ put k (record s { status = next }) p.steps)
    checked v (some e) h = cc
    checked v none h = (v, ap (λ (x : TaskPlan). x.steps) (sym (ok_inj h)))

pub update_task_step-ok :
    (user : ℤ) (id : ℕ) (k : String) (next : TaskStatus) (db db' : PlanDb)
    → update_task_step user id k next db ≡ ok db'
    → Updated id k next db db'
unfolding update_task_step
update_task_step-ok user id k next db db' =
    if_holds (λ r. r ≡ ok db' → Updated id k next db db') (is_status next pending) _ _
      (λ (e : is_status next pending ≡ true). λ h. cc)
      (λ (e : is_status next pending ≡ false). of_plan (lookup id db.plans) refl)
  where
    of_step :
        (p : TaskPlan)
        → lookup id db.plans ≡ some p
        → (o : Option TaskStep) → lookup k p.steps ≡ o
        → elim o [ none ↦ err not_found | some s ↦ store_plan id db (update_found k next s p) ]
          ≡ ok db'
        → Updated id k next db db'
    of_step p f none g h = cc
    of_step p f (some s) g h =
        let (p', (made, stored)) = store_plan-ok id db db' (update_found k next s p) h in
        let (valid, steps) = update_found-ok k next s p p' made in
        record {
          before = p;
          after = p';
          old = s;
          found = f;
          row = g;
          valid = valid;
          stored = stored;
          steps = steps;
        }

    of_plan :
        (o : Option TaskPlan)
        → lookup id db.plans ≡ o
        → elim o [
          | none ↦ err not_found
          | some p ↦ if not (p.user_id == user) then err not_found else elim (lookup k p.steps) [
            | none ↦ err not_found
            | some s ↦ store_plan id db (update_found k next s p)
          ]
        ]
          ≡ ok db'
        → Updated id k next db db'
    of_plan none f = λ h. cc
    of_plan (some p) f =
        if_holds (λ r. r ≡ ok db' → Updated id k next db db') (not (p.user_id == user)) _ _
          (λ (e : not (p.user_id == user) ≡ true). λ h. cc)
          (λ (e : not (p.user_id == user) ≡ false). of_step p f (lookup k p.steps) refl)
