-- ===== src/Plan/Tests.antt =====
-- Runs of small plans of internal/rpc/agent.
use liveclass.Prelude.{
  ℕ, zero, suc, ◌≡◌, ◌≢◌, ◌↔◌, refl, Bool, true, false, String, Option, none, some, List, [], ◌∷◌,
  Table, lookup, put, string_eq, nat_eq, arith,
}
use liveclass.Prelude.Int.{pos}
use liveclass.Plan.{
  create_task_plan, find_plan, insert_steps, update_found, valid_task_transition,
  check_dependencies, count_steps, plan_status, revise_task_plan, revise_found, done_steps,
  TaskStatus, pending, running, done, TaskStep, TaskPlan, PlanDb, ok, err, dependencies_incomplete,
  is_in, update_task_step,
}
use liveclass.Plan.Proposal.{
  all_plan_steps_done, to_new_task_steps, PlanProposal, ProposalError, cycle, out_of_fuel,
  collect_keys, any_bad, any_bad_step, dependencies_of, visit, visit_all, visit_each,
  validate_plan_proposal, all_done, next_ready, next_ready_step, each_done,
}
use liveclass.Plan.Fuel.{validate_plan_proposal-ends}
use liveclass.Plan.Accepts.{Ordering, validate_plan_proposal_iff}
use liveclass.Plan.Counts.{repeats}
use liveclass.Plan.Ready.{update_task_step-repeats, next_ready_step-starts}
use liveclass.Plan.Executor.{
  generate_plan, exec_loop, exec_round, on_plan, on_ready, resume_step, start_step, run_step,
  replan, replan_with, ExecConfig, fine, output, unsuccessful, Round, answered, halted,
  iteration_limit,
}
use liveclass.Plan.Opening.{
  open_plan, find_user_plan, choose_plan, create_chosen, run_opened, read_created, load_results,
  Opening, execute_planned_task,
}
use liveclass.Plan.Limit.{execute_planned_task-ends}
use liveclass.Plan.Progress.{keys_of, depends, next_ready_step-progress}

abbrev any_key : String → Bool
any_key k = true

abbrev no_key : String → Bool
no_key k = false

abbrev in_order : List String → List String
in_order ks = ks

abbrev two_steps : List String → List String → PlanProposal
two_steps ds es = record {
  goal = "goal";
  steps =
      record { key = "a"; description = "first"; depends_on = ds }
      ∷ record { key = "b"; description = "second"; depends_on = es }
      ∷ [];
}

abbrev runs : List String → List String → Option ProposalError
runs ds es = validate_plan_proposal any_key in_order (two_steps ds es) 8 2 no_key

mutual_dependency : runs ("b" ∷ []) ("a" ∷ []) ≡ some cycle
unfolding validate_plan_proposal collect_keys any_bad any_bad_step dependencies_of visit visit_all
    visit_each is_in
mutual_dependency = refl

repeated_dependency : runs [] ("a" ∷ "a" ∷ []) ≡ none
unfolding validate_plan_proposal collect_keys any_bad any_bad_step dependencies_of visit visit_all
    visit_each is_in
repeated_dependency = refl

validate_plan_proposal-ends_example : runs ("b" ∷ []) ("a" ∷ []) ≢ some out_of_fuel
validate_plan_proposal-ends_example =
    validate_plan_proposal-ends any_key in_order (two_steps ("b" ∷ []) ("a" ∷ [])) 8 2 no_key
      (λ ks k i. i)

validate_plan_proposal_iff_example :
    (runs [] ("a" ∷ []) ≡ none)
    ↔ Ordering (dependencies_of ((two_steps [] ("a" ∷ [])).steps)) ("b" ∷ "a" ∷ [])
unfolding collect_keys any_bad any_bad_step is_in
validate_plan_proposal_iff_example =
    validate_plan_proposal_iff any_key in_order (two_steps [] ("a" ∷ [])) 8 2 no_key
      ("b" ∷ "a" ∷ []) (λ ks. (λ k i. i, λ k i. i))
      (record {
        goal = ground (arith, string_eq.same_key_iff "goal" "");
        enough = omega arith;
        few = omega arith;
      })
      refl refl

abbrev a_step : TaskStatus → List String → TaskStep
a_step status ds = record { description = "step"; status = status; depends_on = some ds }

abbrev two_rows : TaskStatus → List String → Table String TaskStep
two_rows status ds = ("a", a_step done []) ∷ ("b", a_step status ds) ∷ []

abbrev a_plan : List String → TaskPlan
a_plan ds = record {
  user_id = pos 1;
  session_id = "session";
  request_id = "request";
  goal = "goal";
  status = running;
  steps = two_rows pending ds;
}

abbrev a_db : List String → PlanDb
a_db ds = record { plans = (4, a_plan ds) ∷ []; next_id = 5 }

update_task_step-repeats_example :
    update_task_step (pos 1) 4 "b" running (a_db ("a" ∷ "a" ∷ [])) ≡ err dependencies_incomplete
unfolding lookup repeats is_in
update_task_step-repeats_example =
    update_task_step-repeats (pos 1) 4 "b" (a_db ("a" ∷ "a" ∷ [])) (a_plan ("a" ∷ "a" ∷ []))
      (a_step pending ("a" ∷ "a" ∷ [])) ("a" ∷ "a" ∷ [])
      (record { plan = refl; owner = refl; keyed = (refl, (refl, tt)) })
      (record { step = refl; unfinished = refl; depends = refl }) refl

next_ready_step-starts_example :
    (p' : TaskPlan) × ((update_task_step (pos 1) 4 "b" running (a_db ("a" ∷ []))
        ≡ ok (record (a_db ("a" ∷ [])) { plans = put 4 p' (a_db ("a" ∷ [])).plans }))
      × (lookup "b" p'.steps ≡ some (a_step running ("a" ∷ []))))
unfolding lookup repeats is_in next_ready_step next_ready all_done
next_ready_step-starts_example =
    next_ready_step-starts (pos 1) 4 "b" (a_db ("a" ∷ [])) (a_plan ("a" ∷ []))
      (a_step pending ("a" ∷ [])) ("a" ∷ [])
      (record { plan = refl; owner = refl; keyed = (refl, (refl, tt)) }) refl refl refl

closed_rows :
    (k d : String)
    → is_in d (depends (two_rows done ("a" ∷ [])) k) ≡ true
    → is_in d (keys_of (two_rows done ("a" ∷ []))) ≡ true
unfolding depends lookup keys_of is_in
closed_rows k d i = ground arith

next_ready_step-progress_example : each_done (two_rows done ("a" ∷ [])) ≡ true
unfolding next_ready_step next_ready depends lookup keys_of is_in
next_ready_step-progress_example =
    next_ready_step-progress (two_rows done ("a" ∷ []))
      (record {
        keyed = (refl, (refl, tt));
        none_failed = (refl, (refl, tt));
        closed = closed_rows;
      })
      refl ("b" ∷ "a" ∷ [], ((λ d i j. i, (λ d i j. i, tt)), λ k i. ground (arith, i)))

abbrev exec_config : ExecConfig
exec_config = record {
  user_id = pos 1;
  session_id = "session";
  request_id = "request";
  max_steps = 4;
  max_replans = 1;
  pattern = any_key;
  range_order = in_order;
}

-- A round in which the step fails, and the planner answers with a plan or not at all.
abbrev fails_with : Option PlanProposal → Round
fails_with q = record {
  get_fails = false;
  answer_fails = false;
  saved = none;
  start = fine;
  invoked = unsuccessful;
  save_fails = false;
  finish = fine;
  mark_failed = fine;
  planned = q;
  revise = fine;
}

abbrev goes_well : Round
goes_well = record (fails_with none) { invoked = output "text" }

-- The first round fails and makes a new plan, the others go well.
abbrev one_replan : ℕ → Round
one_replan zero = fails_with (some (two_steps [] ("a" ∷ [])))
one_replan (suc n) = goes_well

abbrev opening : Opening
opening = record {
  find_fails = false;
  planned = some (two_steps ("b" ∷ []) []);
  create = fine;
  get_fails = false;
  loaded = λ k. none;
}

abbrev empty_db : PlanDb
empty_db = record { plans = []; next_id = 1 }

one_replan_answers :
    (execute_planned_task exec_config "query" opening one_replan empty_db).1
    ≡ answered (("a", "text") ∷ ("b", "text") ∷ [])
unfolding execute_planned_task open_plan find_user_plan choose_plan generate_plan create_chosen
    create_task_plan find_plan insert_steps run_opened read_created load_results exec_loop
    exec_round on_plan on_ready resume_step start_step run_step replan replan_with next_ready_step
    next_ready all_plan_steps_done each_done all_done update_task_step update_found
    valid_task_transition check_dependencies count_steps plan_status revise_task_plan revise_found
    done_steps to_new_task_steps validate_plan_proposal collect_keys any_bad any_bad_step
    dependencies_of visit visit_all visit_each is_in lookup put
one_replan_answers = refl

execute_planned_task-ends_example :
    (execute_planned_task exec_config "query" opening one_replan empty_db).1
    ≢ halted iteration_limit
unfolding lookup
execute_planned_task-ends_example =
    execute_planned_task-ends exec_config "query" opening one_replan empty_db (λ i p h. cc)
