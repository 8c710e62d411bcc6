-- ===== src/Plan/Limit.antt =====
-- executePlannedTask ends before its limit of iterations,
-- internal/rpc/agent/workflow/agent/plan_executor.go: the plan that it opens fits the limit.
use liveclass.Prelude.{
  ℕ, ◌+◌, ◌≤◌, ◌≡◌, ◌≢◌, refl, sym, ◌∙◌, Bool, true, false, not, ◌||◌, String, Option, none, some,
  List, [], length, ltb, Table, put, lookup-put_self, ◌==◌, string_eq, nat_eq, if_holds,
  Option-cases, some_inj, inl, inr, arith,
}
use liveclass.Prelude.Int.{ℤ, is_positive}
use liveclass.Plan.{
  pending, TaskStep, TaskPlan, NewTaskStep, PlanDb, Result, ok, err, insert_steps, count_steps,
  find_plan, create_task_plan,
}
use liveclass.Plan.Proposal.{PlanProposal, fallback_plan, to_new_task_steps}
use liveclass.Plan.Writes.{count_open, ok_inj}
use liveclass.Plan.Revisions.{insert_steps-Grows}
use liveclass.Plan.Moves.{Fits}
use liveclass.Plan.Rounds.{validate-few, halted_inj, length-to_new_task_steps}
use liveclass.Plan.Executor.{
  ExecConfig, DbReply, fine, fails, unseen, Round, iteration_limit, halted, accepts, generate_plan,
  get_plan,
}
use liveclass.Plan.Loop.{loop-ends}
use liveclass.Plan.Opening.{
  Opening, Opened, opened, not_opened, created, find_user_plan, choose_plan, create_chosen,
  open_plan, read_created, run_opened, execute_planned_task,
}

count_open-nil : count_open [] ≡ 0
unfolding count_steps
count_open-nil = refl

-- A database with a new plan.
abbrev new_plan_of : ℤ → String → String → String → PlanDb → Table String TaskStep → PlanDb
new_plan_of user session request goal db t = record {
  plans =
      put db.next_id
        (record {
          user_id = user;
          session_id = session;
          request_id = request;
          goal = goal;
          status = pending;
          steps = t;
        })
        db.plans;
  next_id = db.next_id + 1;
}

created_plan-Fits :
    (user : ℤ) (session request goal : String) (steps : List NewTaskStep) (db : PlanDb) (n : ℕ)
    (r : PlanDb × ℕ)
    → ((i : ℕ) → Fits i n db)
    → length steps ≤ n
    → create_task_plan user session request goal steps db ≡ ok r
    → Fits r.1 n r.0
unfolding create_task_plan
created_plan-Fits user session request goal steps db n r f l =
    let Q : Result (PlanDb × ℕ) → Type 0 = λ x. x ≡ ok r → Fits r.1 n r.0 in
    if_holds Q
      (not (is_positive user)
        || (session == "" || (request == "" || (goal == "" || ltb (length steps) 2))))
      _ _ (λ (e : _ ≡ true). λ h. cc)
      (λ (e : _ ≡ false). of_plan (find_plan session request db.plans))
  where
    of_steps :
        (x : Result (Table String TaskStep × ℕ))
        → insert_steps (λ k. false) steps [] 0 ≡ x
        → elim x [
          | err e ↦ err e
          | ok (t, m) ↦ ok (new_plan_of user session request goal db t, db.next_id)
        ]
          ≡ ok r
        → Fits r.1 n r.0
    of_steps (err e) g h = cc
    of_steps (ok (t, m)) g h =
        let (keyed, few) = insert_steps-Grows (λ k. false) steps [] 0 (t, m) tt g in
        rw (← ok_inj h) (λ p found.
          let same = some_inj (sym (lookup-put_self db.next_id _ db.plans) ∙ found) in
          rw (← same) (keyed, omega (arith, few, l, count_open-nil)))

    of_plan :
        (x : Option (ℕ × TaskPlan))
        → elim x [
          | some (k, p) ↦ ok (db, k)
          | none ↦ elim (insert_steps (λ k. false) steps [] 0) [
            | err e ↦ err e
            | ok (t, m) ↦ ok (new_plan_of user session request goal db t, db.next_id)
          ]
        ]
          ≡ ok r
        → Fits r.1 n r.0
    of_plan (some (k, p)) = λ h. rw (← ok_inj h) (f k)
    of_plan none = of_steps (insert_steps (λ k. false) steps [] 0) refl

module _ (cfg : ExecConfig) (query : String) (o : Opening) where
  abbrev OpensWell : Opened → Type 0
  OpensWell (opened id p db) = Fits id cfg.max_steps db
  OpensWell (not_opened e db) = e ≢ iteration_limit

  created-OpensWell :
      (r : DbReply) (db : PlanDb) (res : Result (PlanDb × ℕ)) (f : ℕ → PlanDb → Opened)
      → ((x : PlanDb × ℕ) → res ≡ ok x → OpensWell (f x.1 x.0))
      → OpensWell (created r db res f)
  created-OpensWell fine db (ok (d, id)) f h = h (d, id) refl
  created-OpensWell fails db (ok (d, id)) f h = λ q. cc
  created-OpensWell unseen db (ok (d, id)) f h = λ q. cc
  created-OpensWell fine db (err e) f h = λ q. cc
  created-OpensWell fails db (err e) f h = λ q. cc
  created-OpensWell unseen db (err e) f h = λ q. cc

  read_created-OpensWell :
      (id : ℕ) (db : PlanDb) (p : Option TaskPlan)
      → Fits id cfg.max_steps db
      → OpensWell (read_created cfg query o id db p)
  unfolding read_created
  read_created-OpensWell id db none f = λ q. cc
  read_created-OpensWell id db (some p) f =
      if_holds OpensWell o.get_fails _ _ (λ (e : o.get_fails ≡ true). λ q. cc)
        (λ (e : o.get_fails ≡ false). f)

  abbrev IsShort : Option PlanProposal → Type 0
  IsShort none = Unit
  IsShort (some q) = length q.steps ≤ cfg.max_steps

  generate_plan-IsShort :
      (external : String → Bool) (q : Option PlanProposal) → IsShort (generate_plan cfg external q)
  unfolding generate_plan
  generate_plan-IsShort external none = tt
  generate_plan-IsShort external (some q) = elim (Option-cases (accepts cfg 2 external q)) [
    | inl e ↦ rw (e, generate_plan) (validate-few cfg 2 external q e)
    | inr (x, e) ↦ rw (e, generate_plan) tt
  ]

  choose_plan-IsShort : (q : Option PlanProposal) → IsShort q → IsShort (choose_plan cfg query o q)
  unfolding choose_plan
  choose_plan-IsShort (some q) h = h
  choose_plan-IsShort none h =
      let q = fallback_plan query in
      elim (Option-cases (accepts cfg 2 (λ k. false) q)) [
        | inl e ↦ rw (e, choose_plan) (validate-few cfg 2 (λ k. false) q e)
        | inr (x, e) ↦ rw (e, choose_plan) tt
      ]

  create_chosen-OpensWell :
      (q : Option PlanProposal) (db : PlanDb)
      → IsShort q
      → ((i : ℕ) → Fits i cfg.max_steps db)
      → OpensWell (create_chosen cfg query o q db)
  unfolding create_chosen
  create_chosen-OpensWell none db h f = λ q. cc
  create_chosen-OpensWell (some q) db h f =
      created-OpensWell o.create db _
        (λ id d. read_created cfg query o id d (get_plan cfg.user_id id d))
        (λ x e. read_created-OpensWell x.1 x.0 _ (
          created_plan-Fits cfg.user_id cfg.session_id cfg.request_id q.goal
            (to_new_task_steps q.steps) db cfg.max_steps x f
            (omega (arith, h, length-to_new_task_steps q.steps)) e))

  open_plan-OpensWell :
      (db : PlanDb) → ((i : ℕ) → Fits i cfg.max_steps db) → OpensWell (open_plan cfg query o db)
  unfolding open_plan
  open_plan-OpensWell db f =
      if_holds OpensWell o.find_fails _ _ (λ (e : o.find_fails ≡ true). λ q. cc)
        (λ (e : o.find_fails ≡ false).
          found (find_user_plan cfg.user_id cfg.session_id cfg.request_id db.plans))
    where
      chosen : Option PlanProposal
      chosen = choose_plan cfg query o (generate_plan cfg (λ k. false) o.planned)

      found :
          (x : Option (ℕ × TaskPlan))
          → OpensWell (elim x [
            | some (id, p) ↦ opened id p db
            | none ↦
                create_chosen cfg query o
                  (choose_plan cfg query o (generate_plan cfg (λ k. false) o.planned))
                  db
          ])
      found (some (id, p)) = f id
      found none =
          create_chosen-OpensWell
            (choose_plan cfg query o (generate_plan cfg (λ k. false) o.planned)) db
            (choose_plan-IsShort (generate_plan cfg (λ k. false) o.planned)
              (generate_plan-IsShort (λ k. false) o.planned))
            f

  run_opened-ends :
      (rounds : ℕ → Round) (x : Opened)
      → OpensWell x
      → (run_opened cfg query o rounds x).1 ≢ halted iteration_limit
  unfolding run_opened
  run_opened-ends rounds (not_opened e db) h = λ q. h (halted_inj q)
  run_opened-ends rounds (opened id p db) h = loop-ends cfg id rounds _ h refl

  -- If no plan of the database has a key twice or more steps left than the configured maximum,
  -- executePlannedTask never ends by its limit of iterations, whatever the planner and the steps
  -- answer, whichever writes fail, or take effect and report a failure.
  pub execute_planned_task-ends :
      (rounds : ℕ → Round) (db : PlanDb)
      → ((i : ℕ) → Fits i cfg.max_steps db)
      → (execute_planned_task cfg query o rounds db).1 ≢ halted iteration_limit
  unfolding execute_planned_task
  execute_planned_task-ends rounds db f =
      run_opened-ends rounds (open_plan cfg query o db) (open_plan-OpensWell db f)
