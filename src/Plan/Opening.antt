-- ===== src/Plan/Opening.antt =====
-- executePlannedTask, internal/rpc/agent/workflow/agent/plan_executor.go: the plan of a request is
-- found, or proposed and created, before the loop.
use liveclass.Prelude.{
  ℕ, ◌&&◌, Bool, false, String, Option, none, some, [], ◌∷◌, Table, put, ◌==◌, int_eq, nat_eq,
  string_eq, if◌then◌else◌,
}
use liveclass.Prelude.Int.{ℤ}
use liveclass.Plan.{done, is_status, TaskStep, TaskPlan, PlanDb, Result, err, ok, create_task_plan}
use liveclass.Plan.Proposal.{PlanProposal, fallback_plan, to_new_task_steps}
use liveclass.Plan.Executor.{
  ExecConfig, DbReply, Round, ExecError, Ended, get_plan, accepts, generate_plan, exec_loop,
  iterations, fine, fails, unseen, get_failed, planner_failed, create_failed, halted,
}

-- What the environment does before the loop.
pub record Opening : Type 0 where
  pub find_fails : Bool
  pub planned : Option PlanProposal
  pub create : DbReply
  pub get_fails : Bool
  pub loaded : String → Option String  -- the saved results

pub data Opened : Type 0 where
  opened : ℕ → TaskPlan → PlanDb → Opened
  not_opened : ExecError → PlanDb → Opened

-- GetTaskPlanByRequest
unfoldable pub find_user_plan : ℤ → String → String → Table ℕ TaskPlan → Option (ℕ × TaskPlan)
find_user_plan user session request [] = none
find_user_plan user session request ((k, p) ∷ t) =
    if (p.user_id == user) && ((p.session_id == session) && (p.request_id == request))
    then some (k, p)
    else find_user_plan user session request t

-- What follows the creation of a plan.
abbrev pub created : DbReply → PlanDb → Result (PlanDb × ℕ) → (ℕ → PlanDb → Opened) → Opened
created fine db (ok (d, id)) f = f id d
created unseen db (ok (d, id)) f = not_opened create_failed d
created fails db (ok (d, id)) f = not_opened create_failed db
created r db (err e) f = not_opened create_failed db

-- The results of the steps that are done.
unfoldable pub load_results :
    (String → Option String) → Table String TaskStep → Table String String → Table String String
load_results loaded [] results = results
load_results loaded ((k, s) ∷ t) results =
    load_results loaded t (if is_status s.status done then keep (loaded k) else results)
  where
    keep : Option String → Table String String
    keep none = results
    keep (some text) = put k text results

module _ (cfg : ExecConfig) (query : String) (o : Opening) where
  -- The planner's proposal, or else the fallback plan.
  unfoldable pub choose_plan : Option PlanProposal → Option PlanProposal
  choose_plan (some q) = some q
  choose_plan none =
      let q = fallback_plan query in
      elim (accepts cfg 2 (λ k. false) q) [ none ↦ some q | some e ↦ none ]

  -- The plan that was created is read again.
  unfoldable pub read_created : ℕ → PlanDb → Option TaskPlan → Opened
  read_created id db none = not_opened get_failed db
  read_created id db (some p) = if o.get_fails then not_opened get_failed db else opened id p db

  unfoldable pub create_chosen : Option PlanProposal → PlanDb → Opened
  create_chosen none db = not_opened planner_failed db
  create_chosen (some q) db =
      created o.create db
        (create_task_plan cfg.user_id cfg.session_id cfg.request_id q.goal
          (to_new_task_steps q.steps) db)
        (λ id d. read_created id d (get_plan cfg.user_id id d))

  unfoldable pub open_plan : PlanDb → Opened
  open_plan db =
      if o.find_fails
      then not_opened get_failed db
      else elim (find_user_plan cfg.user_id cfg.session_id cfg.request_id db.plans) [
        | some (id, p) ↦ opened id p db
        | none ↦ create_chosen (choose_plan (generate_plan cfg (λ k. false) o.planned)) db
      ]

  unfoldable pub run_opened : (ℕ → Round) → Opened → PlanDb × Ended
  run_opened rounds (not_opened e db) = (db, halted e)
  run_opened rounds (opened id p db) =
      exec_loop cfg id (iterations cfg) 0 rounds
        (record { db = db; results = load_results o.loaded p.steps []; replans = 0 })

  -- executePlannedTask, for a principal with a session and a request.
  unfoldable pub execute_planned_task : (ℕ → Round) → PlanDb → PlanDb × Ended
  execute_planned_task rounds db = run_opened rounds (open_plan db)
