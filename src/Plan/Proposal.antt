-- ===== src/Plan/Proposal.antt =====
-- The proposals of the planner, internal/rpc/agent/workflow/agent/plan_executor.go:
-- validatePlanProposal, and the choice of the next step. The order in which Go ranges over a map is
-- an argument, a list of the keys; the pattern of step keys is a regular expression, a parameter.
use liveclass.Prelude.{
  ℕ, zero, suc, ◌+◌, Bool, true, false, not, ◌&&◌, ◌||◌, String, Option, none, some, List, [], ◌∷◌,
  length, map, ltb, Table, lookup, ◌==◌, string_eq, if◌then◌else◌,
}
use liveclass.Plan.{pending, running, done, is_status, TaskStep, NewTaskStep, is_in}

pub record PlanStepProposal : Type 0 where
  pub key : String
  pub description : String
  pub depends_on : List String

pub record PlanProposal : Type 0 where
  pub goal : String
  pub steps : List PlanStepProposal

pub data ProposalError : Type 0 where
  wrong_size invalid_step invalid_dependency cycle out_of_fuel : ProposalError

-- The first loop: the keys, unless one is invalid or repeated.
unfoldable pub collect_keys :
    (String → Bool) → List PlanStepProposal → List String → Option (List String)
collect_keys pattern [] keys = some keys
collect_keys pattern (s ∷ ss) keys =
    elim (not (pattern s.key) || (s.description == "" || is_in s.key keys)) [
      | true ↦ none
      | false ↦ collect_keys pattern ss (s.key ∷ keys)
    ]

-- The second loop.
abbrev pub bad_dependency : List String → (String → Bool) → String → String → Bool
bad_dependency keys external key d = d == key || (not (is_in d keys) && not (external d))

unfoldable pub any_bad : List String → (String → Bool) → String → List String → Bool
any_bad keys external key [] = false
any_bad keys external key (d ∷ ds) =
    bad_dependency keys external key d || any_bad keys external key ds

unfoldable pub any_bad_step : List String → (String → Bool) → List PlanStepProposal → Bool
any_bad_step keys external [] = false
any_bad_step keys external (s ∷ ss) =
    any_bad keys external s.key s.depends_on || any_bad_step keys external ss

-- `byKey[key].DependsOn`: of a missing key, the zero value's; keys are not repeated.
unfoldable pub dependencies_of : List PlanStepProposal → String → List String
dependencies_of [] k = []
dependencies_of (s ∷ ss) k = if s.key == k then s.depends_on else dependencies_of ss k

-- What a visit leaves: the keys visited, the newest first, or an error.
pub data Visit : Type 0 where
  visited : List String → Visit
  stopped : ProposalError → Visit

abbrev pub finish : String → Visit → Visit
finish k (visited seen) = visited (k ∷ seen)
finish k (stopped e) = stopped e

abbrev pub after : Visit → (List String → Visit) → Visit
after (visited seen) f = f seen
after (stopped e) f = stopped e

-- The loop over the dependencies of a key that is visited, over the visit of one.
unfoldable pub visit_each :
    List String → (List String → String → Visit) → List String → List String → Visit
visit_each keys v seen [] = visited seen
visit_each keys v seen (d ∷ ds) = elim (is_in d keys) [
  | true ↦ after (v seen d) (λ seen'. visit_each keys v seen' ds)
  | false ↦ visit_each keys v seen ds
]

module _ (deps : String → List String) (keys : List String) where
  -- `visit`, on fuel, with the keys that are being visited.
  unfoldable pub visit : ℕ → List String → List String → String → Visit
  visit zero visiting seen k = stopped out_of_fuel
  visit (suc fuel) visiting seen k = elim (is_in k visiting) [
    | true ↦ stopped cycle
    | false ↦ elim (is_in k seen) [
      | true ↦ visited seen
      | false ↦ finish k (visit_each keys (visit fuel (k ∷ visiting)) seen (deps k))
    ]
  ]

  -- The loop `for key := range keys`, over the keys in the order of the range.
  unfoldable pub visit_all : ℕ → List String → List String → Visit
  visit_all fuel seen [] = visited seen
  visit_all fuel seen (k ∷ ks) = after (visit fuel [] seen k) (λ seen'. visit_all fuel seen' ks)

abbrev pub verdict : Visit → Option ProposalError
verdict (visited seen) = none
verdict (stopped e) = some e

-- validatePlanProposal; `range_order` is the order in which the keys are ranged over. Visits nest at
-- most once for each key, and one fuel more is enough.
unfoldable pub validate_plan_proposal :
    (String → Bool)
    → (List String → List String)
    → PlanProposal
    → ℕ
    → ℕ
    → (String → Bool)
    → Option ProposalError
validate_plan_proposal pattern range_order p max_steps min_steps external =
    if p.goal == "" || (ltb (length p.steps) min_steps || ltb max_steps (length p.steps))
    then some wrong_size
    else elim (collect_keys pattern p.steps []) [
      | none ↦ some invalid_step
      | some keys ↦
          if any_bad_step keys external p.steps
          then some invalid_dependency
          else verdict
              (visit_all (dependencies_of p.steps) keys (length keys + 1) [] (range_order keys))
    ]

-- fallbackPlan
unfoldable pub fallback_plan : String → PlanProposal
fallback_plan goal = record {
  goal = goal;
  steps =
      record { key = "analyze_requirements"; description = "确认目标、约束与完成标准"; depends_on = [] }
      ∷ record {
        key = "execute_task";
        description = "根据目标调用必要工具并完成任务";
        depends_on = "analyze_requirements" ∷ [];
      }
      ∷ record {
        key = "verify_result";
        description = "检查执行结果并形成最终结论";
        depends_on = "execute_task" ∷ [];
      }
      ∷ [];
}

-- toNewTaskSteps: what was marshalled decodes to the same list.
abbrev pub to_new_task_step : PlanStepProposal → NewTaskStep
to_new_task_step s = record {
  key = s.key;
  description = s.description;
  depends_on = some s.depends_on;
}

unfoldable pub to_new_task_steps : List PlanStepProposal → List NewTaskStep
to_new_task_steps = map to_new_task_step

-- `status[dependency] == "done"`
abbrev pub is_done : Table String TaskStep → String → Bool
is_done t k = elim (lookup k t) [ none ↦ false | some s ↦ is_status s.status done ]

unfoldable pub all_done : Table String TaskStep → List String → Bool
all_done t [] = true
all_done t (d ∷ ds) = is_done t d && all_done t ds

abbrev pub is_open : TaskStep → Bool
is_open s = is_status s.status pending || is_status s.status running

pub data Ready : Type 0 where
  ready : String → TaskStep → Ready
  undecodable no_ready_step : Ready

-- The loop of `nextReadyStep` over the rest of the steps.
unfoldable pub next_ready : Table String TaskStep → Table String TaskStep → Ready
next_ready all [] = no_ready_step
next_ready all ((k, s) ∷ t) = elim (is_open s) [
  | false ↦ next_ready all t
  | true ↦ elim s.depends_on [
    | none ↦ undecodable
    | some ds ↦ elim (all_done all ds) [ true ↦ ready k s | false ↦ next_ready all t ]
  ]
]

unfoldable pub next_ready_step : Table String TaskStep → Ready
next_ready_step t = next_ready t t

unfoldable pub each_done : Table String TaskStep → Bool
each_done [] = true
each_done ((k, s) ∷ t) = is_status s.status done && each_done t

-- allPlanStepsDone
unfoldable pub all_plan_steps_done : Table String TaskStep → Bool
all_plan_steps_done [] = false
all_plan_steps_done (x ∷ t) = each_done (x ∷ t)
