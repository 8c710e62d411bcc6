-- ===== src/Plan/Rounds.antt =====
-- The rounds of executePlannedTask, internal/rpc/agent/workflow/agent/plan_executor.go: one that goes
-- on has finished a step, or has used up one of the replans.
use liveclass.Prelude.{
  ℕ, suc, ◌+◌, ◌≤◌, ◌<◌, ◌≡◌, ◌≢◌, ◌⊎◌, refl, sym, ap, ◌∙◌, Bool, true, false, ◌||◌, String, Option,
  none, some, List, [], ◌∷◌, length, ltb, leb, lookup, put, IsKeyed, ◌==◌, string_eq, int_eq,
  nat_eq, if◌then◌else◌, if_holds, Bool-cases, some_inj, inl, inr, arith,
}
use liveclass.Prelude.Int.{ℤ}
use liveclass.Plan.{
  running, done, failed, is_status, TaskPlan, PlanDb, update_task_step, revise_task_plan,
}
use liveclass.Plan.Proposal.{
  PlanProposal, PlanStepProposal, ProposalError, validate_plan_proposal, to_new_task_steps, is_done,
  Ready, ready, undecodable, no_ready_step, next_ready_step, all_plan_steps_done,
}
use liveclass.Plan.Ready.{next_ready-ready}
use liveclass.Plan.Writes.{update_task_step-ok}
use liveclass.Plan.Revisions.{revise_task_plan-ok}
use liveclass.Plan.Executor.{
  ExecConfig, Invoked, output, unsuccessful, Round, ExecError, done_failed, revise_failed,
  bad_proposal, synthesis_failed, start_failed, iteration_limit, answered, halted, ExecState, Next,
  continues, ends, Written, wrote, refused, written, db_of, and_then, get_plan, accepts,
  generate_plan, mark_done, replan_with, replan, run_step, resume_step, start_step, on_ready,
  on_plan, exec_round,
}
use liveclass.Plan.Moves.{
  Fits, IsRunning, written-ok, db_of-written, is_status-running, started-Fits, finished-Fits,
  Updated-IsKeyed,
}

pub validate-few :
    (cfg : ExecConfig) (min_steps : ℕ) (external : String → Bool) (q : PlanProposal)
    → accepts cfg min_steps external q ≡ none
    → length q.steps ≤ cfg.max_steps
unfolding validate_plan_proposal
validate-few cfg min_steps external q =
    if_holds (λ r. r ≡ none → length q.steps ≤ cfg.max_steps)
      (q.goal == "" || (ltb (length q.steps) min_steps || ltb cfg.max_steps (length q.steps))) _ _
      (λ (e : (q.goal == ""
            || (ltb (length q.steps) min_steps || ltb cfg.max_steps (length q.steps)))
          ≡ true).
        λ h. cc)
      (λ (e : (q.goal == ""
            || (ltb (length q.steps) min_steps || ltb cfg.max_steps (length q.steps)))
          ≡ false).
        λ h. ground (arith, e))

pub length-to_new_task_steps :
    (ss : List PlanStepProposal) → length (to_new_task_steps ss) ≡ length ss
unfolding to_new_task_steps
length-to_new_task_steps [] = refl
length-to_new_task_steps (s ∷ ss) = omega (arith, length-to_new_task_steps ss)

get_plan-found :
    (user : ℤ) (id : ℕ) (db : PlanDb) (p : TaskPlan)
    → get_plan user id db ≡ some p
    → lookup id db.plans ≡ some p
get_plan-found user id db p = of_plan (lookup id db.plans)
  where
    of_plan :
        (o : Option TaskPlan)
        → elim o [ none ↦ none | some p ↦ if p.user_id == user then some p else none ] ≡ some p
        → o ≡ some p
    of_plan none h = cc
    of_plan (some x) h = ground (arith, h)

pub halted_inj : {a b : ExecError} → halted a ≡ halted b → a ≡ b
halted_inj {a = a} h = ap (λ x. elim x [ halted y ↦ y | answered t ↦ a ]) h

module _ (cfg : ExecConfig) (id : ℕ) where
  -- A round that goes on has finished a step, or made a new plan.
  abbrev pub Advances : ℕ → ℕ → Next → Type 0
  Advances n replans (ends d e) = e ≢ halted iteration_limit
  Advances n replans (continues st) =
      ((m : ℕ) × ((n ≡ suc m) × (Fits id m st.db × (st.replans ≡ replans))))
      ⊎ ((replans < cfg.max_replans) × (Fits id cfg.max_steps st.db × (st.replans ≡ replans + 1)))

  and_then-Advances :
      (n replans : ℕ) (e : ExecError) (w : Written) (f : PlanDb → Next)
      → e ≢ iteration_limit
      → ((d : PlanDb) → w ≡ wrote d → Advances n replans (f d))
      → Advances n replans (and_then e w f)
  and_then-Advances n replans e (wrote d) f o h = h d refl
  and_then-Advances n replans e (refused d) f o h = λ q. o (halted_inj q)

  module _ (r : Round) where
    mark_done-Advances :
        (n : ℕ) (k text : String) (st : ExecState)
        → Fits id n st.db
        → IsRunning id k st.db
        → Advances n st.replans (mark_done cfg id r k text st)
    mark_done-Advances n k text st f i =
        and_then-Advances n st.replans done_failed
          (written r.finish st.db (update_task_step cfg.user_id id k done st.db))
          (λ d. continues (record st { db = d; results = put k text st.results })) (λ q. cc)
          (λ d e.
            let res = update_task_step cfg.user_id id k done st.db in
            let u =
              update_task_step-ok cfg.user_id id k done st.db d
                (written-ok r.finish st.db d res e) in
            let (m, (less, fits)) = finished-Fits id k st.db d n i u f in
            inl (m, (less, (fits, refl))))

    -- Whatever became of the write that marks the step as failed, no key is twice in the plan.
    marked-IsKeyed :
        (n : ℕ) (k : String) (st : ExecState)
        → Fits id n st.db
        → let d =
            db_of (written r.mark_failed st.db (update_task_step cfg.user_id id k failed st.db)) in
          (p : TaskPlan) → lookup id d.plans ≡ some p → IsKeyed p.steps
    marked-IsKeyed n k st f p g =
        let res = update_task_step cfg.user_id id k failed st.db in
        let d = db_of (written r.mark_failed st.db res) in
        elim (db_of-written r.mark_failed st.db res) [
          | inl e ↦ (f p (ap (λ (x : PlanDb). lookup id x.plans) (sym e) ∙ g)).0
          | inr e ↦
              Updated-IsKeyed id k st.db d failed n
                (update_task_step-ok cfg.user_id id k failed st.db d e) f p g
        ]

    replan_with-Advances :
        (n : ℕ) (p : TaskPlan) (q : Option PlanProposal) (st : ExecState)
        → ((p : TaskPlan) → lookup id st.db.plans ≡ some p → IsKeyed p.steps)
        → st.replans < cfg.max_replans
        → Advances n st.replans (replan_with cfg id r p q st)
    unfolding replan_with
    replan_with-Advances n p none st u l = λ q. cc
    replan_with-Advances n p (some q) st u l = checked (accepts cfg 1 (is_done p.steps) q) refl
      where
        checked :
            (o : Option ProposalError)
            → accepts cfg 1 (is_done p.steps) q ≡ o
            → Advances n st.replans (elim o [
              | some e ↦ ends st.db (halted bad_proposal)
              | none ↦
                  and_then revise_failed
                    (written r.revise st.db
                      (revise_task_plan cfg.user_id id (to_new_task_steps q.steps) st.db))
                    (λ d. continues (record st { db = d; replans = st.replans + 1 }))
            ])
        checked (some e) h = λ x. cc
        checked none h =
            let res = revise_task_plan cfg.user_id id (to_new_task_steps q.steps) st.db in
            and_then-Advances n st.replans revise_failed (written r.revise st.db res)
              (λ d. continues (record st { db = d; replans = st.replans + 1 })) (λ x. cc)
              (λ d e.
                let v =
                  revise_task_plan-ok cfg.user_id id (to_new_task_steps q.steps) st.db d u
                    (written-ok r.revise st.db d res e) in
                inr (
                  l,
                  (
                    λ x g.
                        let same : v.revised ≡ x = some_inj (sym v.stored ∙ g) in
                        rw (← same) (
                          v.keyed,
                          omega (
                            arith,
                            v.bounded,
                            length-to_new_task_steps q.steps,
                            validate-few cfg 1 (is_done p.steps) q h,
                          ),
                        ),
                    refl,
                  ),
                ))

    run_step-Advances :
        (n : ℕ) (p : TaskPlan) (k : String) (i : Invoked) (st : ExecState)
        → Fits id n st.db
        → IsRunning id k st.db
        → Advances n st.replans (run_step cfg id r p k i st)
    unfolding run_step replan
    run_step-Advances n p k (output text) st f i =
        if_holds (Advances n st.replans) r.save_fails _ _ (λ (e : r.save_fails ≡ true). λ q. cc)
          (λ (e : r.save_fails ≡ false). mark_done-Advances n k text st f i)
    run_step-Advances n p k unsuccessful st f i =
        let d =
          db_of (written r.mark_failed st.db (update_task_step cfg.user_id id k failed st.db)) in
        if_holds (Advances n st.replans) (leb cfg.max_replans st.replans) _ _
          (λ (e : leb cfg.max_replans st.replans ≡ true). λ q. cc)
          (λ (e : leb cfg.max_replans st.replans ≡ false).
            replan_with-Advances n p (generate_plan cfg (is_done p.steps) r.planned)
              (record st { db = d }) (marked-IsKeyed n k st f) (ground (arith, e)))

    resume_step-Advances :
        (n : ℕ) (p : TaskPlan) (k : String) (o : Option String) (st : ExecState)
        → Fits id n st.db
        → IsRunning id k st.db
        → Advances n st.replans (resume_step cfg id r p k o st)
    unfolding resume_step
    resume_step-Advances n p k (some text) st f i = mark_done-Advances n k text st f i
    resume_step-Advances n p k none st f i = run_step-Advances n p k r.invoked st f i

    start_step-Advances :
        (n : ℕ) (p : TaskPlan) (k : String) (st : ExecState)
        → Fits id n st.db
        → Advances n st.replans (start_step cfg id r p k st)
    unfolding start_step
    start_step-Advances n p k st f =
        let res = update_task_step cfg.user_id id k running st.db in
        and_then-Advances n st.replans start_failed (written r.start st.db res)
          (λ d. run_step cfg id r p k r.invoked (record st { db = d })) (λ q. cc)
          (λ d e.
            let u =
              update_task_step-ok cfg.user_id id k running st.db d
                (written-ok r.start st.db d res e) in
            let (fits, is) = started-Fits id k st.db d n u f in
            run_step-Advances n p k r.invoked (record st { db = d }) fits is)

    on_ready-Advances :
        (n : ℕ) (p : TaskPlan) (a : Ready) (st : ExecState)
        → Fits id n st.db
        → lookup id st.db.plans ≡ some p
        → next_ready_step p.steps ≡ a
        → Advances n st.replans (on_ready cfg id r p a st)
    unfolding on_ready next_ready_step
    on_ready-Advances n p no_ready_step st f g h = λ q. cc
    on_ready-Advances n p undecodable st f g h = λ q. cc
    on_ready-Advances n p (ready k s) st f g h = elim (Bool-cases (is_status s.status running)) [
      | inl e ↦
          let (row, rest) = next_ready-ready p.steps p.steps k s (f p g).0 h in
          rw (e, on_ready)
            (resume_step-Advances n p k r.saved st f (record {
              plan = p;
              step = s;
              found = g;
              row = row;
              runs = is_status-running s.status e;
            }))
      | inr e ↦ rw (e, on_ready) (start_step-Advances n p k st f)
    ]

    on_plan-Advances :
        (n : ℕ) (o : Option TaskPlan) (st : ExecState)
        → Fits id n st.db
        → get_plan cfg.user_id id st.db ≡ o
        → Advances n st.replans (on_plan cfg id r o st)
    unfolding on_plan
    on_plan-Advances n none st f h = λ q. cc
    on_plan-Advances n (some p) st f h = elim (Bool-cases (all_plan_steps_done p.steps)) [
      | inl e ↦ rw (e, on_plan) (no_limit r.answer_fails)
      | inr e ↦
          rw (e, on_plan)
            (on_ready-Advances n p (next_ready_step p.steps) st f
              (get_plan-found cfg.user_id id st.db p h) refl)
    ]
      where
        no_limit :
            (b : Bool)
            → (if b then halted synthesis_failed else answered st.results) ≢ halted iteration_limit
        no_limit true q = cc
        no_limit false q = cc

    pub exec_round-Advances :
        (n : ℕ) (st : ExecState) → Fits id n st.db → Advances n st.replans (exec_round cfg id r st)
    unfolding exec_round
    exec_round-Advances n st f =
        if_holds (Advances n st.replans) r.get_fails _ _ (λ (e : r.get_fails ≡ true). λ q. cc)
          (λ (e : r.get_fails ≡ false).
            on_plan-Advances n (get_plan cfg.user_id id st.db) st f refl)
