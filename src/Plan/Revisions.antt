-- ===== src/Plan/Revisions.antt =====
-- What ReviseTaskPlan leaves of a plan, internal/rpc/agent/memory/task_plan.go.
use liveclass.Prelude.{
  ℕ, ◌+◌, ◌≤◌, ◌≡◌, refl, ap, Bool, true, false, not, ◌||◌, String, Option, none, some, List, [],
  ◌∷◌, length, nat_beq, Table, lookup, put, IsKeyed, put-IsKeyed, ◌==◌, string_eq, int_eq, nat_eq,
  if◌then◌else◌, if_holds, Bool-cases, Option-cases, inl, inr, arith,
}
use liveclass.Prelude.Int.{ℤ}
use liveclass.Plan.{
  TaskStatus, pending, running, done, failed, is_status, TaskStep, TaskPlan, NewTaskStep, PlanDb,
  Result, ok, err, not_found, no_unfinished_steps, count_steps, store_plan, insert_steps,
  done_steps, has_step, revise_found, revise_task_plan,
}
use liveclass.Plan.Writes.{count_open, count_open-put-le, ok_inj, store_plan-ok}

lookup-done_steps :
    (t : Table String TaskStep) (k : String) → lookup k t ≡ none → lookup k (done_steps t) ≡ none
unfolding lookup done_steps
lookup-done_steps [] k h = refl
lookup-done_steps ((j, s) ∷ t) k h = ground (arith, lookup-done_steps t k)

done_steps-IsKeyed : (t : Table String TaskStep) → IsKeyed t → IsKeyed (done_steps t)
unfolding done_steps
done_steps-IsKeyed [] u = tt
done_steps-IsKeyed ((j, s) ∷ t) u = elim (Bool-cases (is_status s.status done)) [
  | inl e ↦ rw e (lookup-done_steps t j u.0, done_steps-IsKeyed t u.1)
  | inr e ↦ rw e (done_steps-IsKeyed t u.1)
]

done-not_open :
    (s : TaskStatus)
    → is_status s done ≡ true
    → (is_status s pending || is_status s running) ≡ false
done-not_open pending h = cc
done-not_open running h = cc
done-not_open done h = refl
done-not_open failed h = cc

count_open-done_steps : (t : Table String TaskStep) → count_open (done_steps t) ≡ 0
unfolding count_steps done_steps
count_open-done_steps [] = refl
count_open-done_steps ((j, s) ∷ t) = elim (Bool-cases (is_status s.status done)) [
  | inl e ↦ rw (e, done-not_open s.status e) (count_open-done_steps t)
  | inr e ↦ rw e (count_open-done_steps t)
]

-- The table grows by at most the new steps.
abbrev Grows : Table String TaskStep → ℕ → Table String TaskStep → Type 0
Grows t n t' = IsKeyed t' × (count_open t' ≤ count_open t + n)

pub insert_steps-Grows :
    (skipped : String → Bool) (ss : List NewTaskStep) (t : Table String TaskStep) (n : ℕ)
    (r : Table String TaskStep × ℕ)
    → IsKeyed t
    → insert_steps skipped ss t n ≡ ok r
    → Grows t (length ss) r.0
unfolding insert_steps
insert_steps-Grows skipped [] t n r u h =
    let same : t ≡ r.0 = ap (λ (x : Table String TaskStep × ℕ). x.0) (ok_inj h) in
    rw (← same) (u, omega arith)
insert_steps-Grows skipped (s ∷ ss) t n r u h = elim (Bool-cases (skipped s.key)) [
  | inl e ↦
      let (a, b) = insert_steps-Grows skipped ss t n r u (rw (e, insert_steps) at h) in
      (a, omega (arith, b))
  | inr e ↦ elim (Bool-cases (s.key == "" || s.description == "")) [
    | inl f ↦ cc (h, rw (e, f, insert_steps) at h)
    | inr f ↦ elim (Option-cases (lookup s.key t)) [
      | inr (old, g) ↦ cc (rw (e, f, g, insert_steps) at h)
      | inl g ↦
          let t' =
            put s.key
              (record { description = s.description; status = pending; depends_on = s.depends_on })
              t in
          let (a, b) =
            insert_steps-Grows skipped ss t' (n + 1) r (put-IsKeyed s.key _ t u)
              (rw (e, f, g, insert_steps) at h) in
          (
            a,
            omega (
              arith,
              b,
              count_open-put-le t s.key (record {
                description = s.description;
                status = pending;
                depends_on = s.depends_on;
              }),
            ),
          )
    ]
  ]
]

revise_found-ok :
    (steps : List NewTaskStep) (p p' : TaskPlan)
    → IsKeyed p.steps
    → revise_found steps p ≡ ok p'
    → IsKeyed p'.steps × (count_open p'.steps ≤ length steps)
unfolding revise_found
revise_found-ok steps p p' u =
    of_steps (insert_steps (has_step (done_steps p.steps)) steps (done_steps p.steps) 0) refl
  where
    of_steps :
        (o : Result (Table String TaskStep × ℕ))
        → insert_steps (has_step (done_steps p.steps)) steps (done_steps p.steps) 0 ≡ o
        → elim o [
          | err e ↦ err e
          | ok (t, n) ↦
              if nat_beq n 0
              then err no_unfinished_steps
              else ok (record p { steps = t; status = pending })
        ]
          ≡ ok p'
        → IsKeyed p'.steps × (count_open p'.steps ≤ length steps)
    of_steps (err e) f = λ h. cc
    of_steps (ok (t, n)) f =
        if_holds (λ r. r ≡ ok p' → IsKeyed p'.steps × (count_open p'.steps ≤ length steps))
          (nat_beq n 0) _ _ (λ (e : nat_beq n 0 ≡ true). λ h. cc)
          (λ (e : nat_beq n 0 ≡ false). λ h.
            let (a, b) =
              insert_steps-Grows (has_step (done_steps p.steps)) steps (done_steps p.steps) 0 (t, n)
                (done_steps-IsKeyed p.steps u) f in
            let same : t ≡ p'.steps = ap (λ (x : TaskPlan). x.steps) (ok_inj h) in
            rw (← same) (a, omega (arith, b, count_open-done_steps p.steps)))

-- The plan after a revision.
pub record Revised (id : ℕ) (n : ℕ) (db' : PlanDb) : Type 0 where
  pub revised : TaskPlan
  pub stored : lookup id db'.plans ≡ some revised
  pub keyed : IsKeyed revised.steps
  pub bounded : count_open revised.steps ≤ n

pub revise_task_plan-ok :
    (user : ℤ) (id : ℕ) (steps : List NewTaskStep) (db db' : PlanDb)
    → ((p : TaskPlan) → lookup id db.plans ≡ some p → IsKeyed p.steps)
    → revise_task_plan user id steps db ≡ ok db'
    → Revised id (length steps) db'
unfolding revise_task_plan
revise_task_plan-ok user id steps db db' u =
    if_holds (λ r. r ≡ ok db' → Revised id (length steps) db') (nat_beq (length steps) 0) _ _
      (λ (e : nat_beq (length steps) 0 ≡ true). λ h. cc)
      (λ (e : nat_beq (length steps) 0 ≡ false). of_plan (lookup id db.plans) refl)
  where
    of_plan :
        (o : Option TaskPlan)
        → lookup id db.plans ≡ o
        → elim o [
          | none ↦ err not_found
          | some p ↦
              if not (p.user_id == user)
              then err not_found
              else store_plan id db (revise_found steps p)
        ]
          ≡ ok db'
        → Revised id (length steps) db'
    of_plan none f = λ h. cc
    of_plan (some p) f =
        if_holds (λ r. r ≡ ok db' → Revised id (length steps) db') (not (p.user_id == user)) _ _
          (λ (e : not (p.user_id == user) ≡ true). λ h. cc)
          (λ (e : not (p.user_id == user) ≡ false). λ h.
            let (p', (made, stored)) = store_plan-ok id db db' (revise_found steps p) h in
            let (a, b) = revise_found-ok steps p p' (u p f) made in
            record { revised = p'; stored = stored; keyed = a; bounded = b })
