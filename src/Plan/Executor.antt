-- ===== src/Plan/Executor.antt =====
-- The loop of executePlannedTask, internal/rpc/agent/workflow/agent/plan_executor.go, on the task
-- plans of internal/rpc/agent/memory/task_plan.go. What the environment does in a round (the
-- database's failures, the models' answers, a saved result) is a `Round`, one for each iteration;
-- no one else writes the plan meanwhile.
use liveclass.Prelude.{
  ℕ, zero, suc, ◌+◌, ◌*◌, Bool, true, false, String, Option, none, some, List, Table, lookup, put,
  leb, ◌==◌, int_eq, nat_eq, string_eq, if◌then◌else◌,
}
use liveclass.Prelude.Int.{ℤ}
use liveclass.Plan.{
  running, done, failed, is_status, TaskPlan, PlanDb, Result, err, ok, update_task_step,
  revise_task_plan,
}
use liveclass.Plan.Proposal.{
  PlanProposal, ProposalError, validate_plan_proposal, to_new_task_steps, is_done, Ready, ready,
  undecodable, no_ready_step, next_ready_step, all_plan_steps_done,
}

pub record ExecConfig : Type 0 where
  pub user_id : ℤ
  pub session_id : String
  pub request_id : String
  pub max_steps : ℕ
  pub max_replans : ℕ
  pub pattern : String → Bool
  pub range_order : List String → List String

-- How a write goes: it is done, it fails, or it is done and reported as failed.
pub data DbReply : Type 0 where
  fine fails unseen : DbReply

-- A step's run: its output, or that it failed or asks for another plan, or an error.
pub data Invoked : Type 0 where
  output : String → Invoked
  unsuccessful : Invoked

pub record Round : Type 0 where
  pub get_fails : Bool
  pub answer_fails : Bool  -- of synthesizePlanResult
  pub saved : Option String  -- what LoadTaskStepResult finds, if that is no empty text
  pub start : DbReply
  pub invoked : Invoked
  pub save_fails : Bool
  pub finish : DbReply
  pub mark_failed : DbReply
  pub planned : Option PlanProposal  -- what the planner's answer parses to
  pub revise : DbReply

pub data ExecError : Type 0 where
  get_failed synthesis_failed no_ready undecodable_step start_failed save_failed : ExecError
  done_failed step_failed planner_failed bad_proposal revise_failed create_failed : ExecError
  iteration_limit : ExecError

pub data Ended : Type 0 where
  answered : Table String String → Ended
  halted : ExecError → Ended

pub record ExecState : Type 0 where
  pub db : PlanDb
  pub results : Table String String
  pub replans : ℕ

pub data Next : Type 0 where
  continues : ExecState → Next
  ends : PlanDb → Ended → Next

-- A write's database, and whether it reports success.
pub data Written : Type 0 where
  wrote refused : PlanDb → Written

abbrev pub written : DbReply → PlanDb → Result PlanDb → Written
written fine db (ok d) = wrote d
written fine db (err e) = refused db
written fails db (ok d) = refused db
written fails db (err e) = refused db
written unseen db (ok d) = refused d
written unseen db (err e) = refused db

abbrev pub db_of : Written → PlanDb
db_of (wrote d) = d
db_of (refused d) = d

abbrev pub and_then : ExecError → Written → (PlanDb → Next) → Next
and_then e (wrote d) f = f d
and_then e (refused d) f = ends d (halted e)

abbrev pub go_on : Next → (ExecState → PlanDb × Ended) → PlanDb × Ended
go_on (continues st) f = f st
go_on (ends d e) f = (d, e)

-- GetTaskPlan
abbrev pub get_plan : ℤ → ℕ → PlanDb → Option TaskPlan
get_plan user id db = elim (lookup id db.plans) [
  | none ↦ none
  | some p ↦ if p.user_id == user then some p else none
]

module _ (cfg : ExecConfig) where
  abbrev pub accepts : ℕ → (String → Bool) → PlanProposal → Option ProposalError
  accepts min_steps external p =
      validate_plan_proposal cfg.pattern cfg.range_order p cfg.max_steps min_steps external

  -- generatePlan, from what the planner's answer parses to.
  unfoldable pub generate_plan : (String → Bool) → Option PlanProposal → Option PlanProposal
  generate_plan external none = none
  generate_plan external (some p) = elim (accepts 2 external p) [ none ↦ some p | some e ↦ none ]

  module _ (id : ℕ) (r : Round) where
    -- A step's result is kept and the step is done.
    abbrev pub mark_done : String → String → ExecState → Next
    mark_done k text st =
        and_then done_failed (written r.finish st.db (update_task_step cfg.user_id id k done st.db))
          (λ d. continues (record st { db = d; results = put k text st.results }))

    -- What is tried with the planner's proposal.
    unfoldable pub replan_with : TaskPlan → Option PlanProposal → ExecState → Next
    replan_with p none st = ends st.db (halted planner_failed)
    replan_with p (some q) st = elim (accepts 1 (is_done p.steps) q) [
      | some e ↦ ends st.db (halted bad_proposal)
      | none ↦
          and_then revise_failed
            (written r.revise st.db
              (revise_task_plan cfg.user_id id (to_new_task_steps q.steps) st.db))
            (λ d. continues (record st { db = d; replans = st.replans + 1 }))
    ]

    unfoldable pub replan : TaskPlan → String → ExecState → Next
    replan p k st =
        let d =
          db_of (written r.mark_failed st.db (update_task_step cfg.user_id id k failed st.db)) in
        if leb cfg.max_replans st.replans
        then ends d (halted step_failed)
        else replan_with p (generate_plan (is_done p.steps) r.planned) (record st { db = d })

    unfoldable pub run_step : TaskPlan → String → Invoked → ExecState → Next
    run_step p k (output text) st =
        if r.save_fails then ends st.db (halted save_failed) else mark_done k text st
    run_step p k unsuccessful st = replan p k st

    -- A step that was running goes on from its saved result, if there is one.
    unfoldable pub resume_step : TaskPlan → String → Option String → ExecState → Next
    resume_step p k (some text) st = mark_done k text st
    resume_step p k none st = run_step p k r.invoked st

    unfoldable pub start_step : TaskPlan → String → ExecState → Next
    start_step p k st =
        and_then start_failed
          (written r.start st.db (update_task_step cfg.user_id id k running st.db))
          (λ d. run_step p k r.invoked (record st { db = d }))

    unfoldable pub on_ready : TaskPlan → Ready → ExecState → Next
    on_ready p no_ready_step st = ends st.db (halted no_ready)
    on_ready p undecodable st = ends st.db (halted undecodable_step)
    on_ready p (ready k s) st = elim (is_status s.status running) [
      | true ↦ resume_step p k r.saved st
      | false ↦ start_step p k st
    ]

    unfoldable pub on_plan : Option TaskPlan → ExecState → Next
    on_plan none st = ends st.db (halted get_failed)
    on_plan (some p) st = elim (all_plan_steps_done p.steps) [
      | true ↦ ends st.db (if r.answer_fails then halted synthesis_failed else answered st.results)
      | false ↦ on_ready p (next_ready_step p.steps) st
    ]

    -- One iteration.
    unfoldable pub exec_round : ExecState → Next
    exec_round st =
        if r.get_fails
        then ends st.db (halted get_failed)
        else on_plan (get_plan cfg.user_id id st.db) st

  -- The loop, by the iterations left.
  unfoldable pub exec_loop : ℕ → ℕ → ℕ → (ℕ → Round) → ExecState → PlanDb × Ended
  exec_loop id zero n rounds st = (st.db, halted iteration_limit)
  exec_loop id (suc left) n rounds st =
      go_on (exec_round id (rounds n) st) (λ st'. exec_loop id left (n + 1) rounds st')

  abbrev pub iterations : ℕ
  iterations = cfg.max_steps * (cfg.max_replans + 1) + cfg.max_replans + 1
