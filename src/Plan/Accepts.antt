-- ===== src/Plan/Accepts.antt =====
-- Which proposals validatePlanProposal accepts, internal/rpc/agent/workflow/agent/plan_executor.go:
-- the ones whose steps can be put in an order in which dependencies come first.
use liveclass.Prelude.{
  ℕ, ◌+◌, ◌≤◌, ◌≡◌, ◌≢◌, ◌↔◌, refl, sym, ◌∙◌, Bool, false, ◌||◌, String, none, some, List, [],
  length, ltb, ◌==◌, string_eq, arith,
}
use liveclass.Plan.Proposal.{
  PlanProposal, Visit, visited, stopped, visit_all, collect_keys, any_bad_step, dependencies_of,
  validate_plan_proposal, verdict,
}
use liveclass.Plan.Visits.{IsSubset, IsOrdered, Finds, visit_all-Finds}
use liveclass.Plan.Fuel.{Ends, visit_all-Ends}
use liveclass.Plan.Cycles.{NoCycle, visit_all-NoCycle}

-- A list of all keys, each before its dependencies.
abbrev pub Ordering : (String → List String) → List String → Type 0
Ordering deps keys = (order : List String) × (IsOrdered deps keys order × IsSubset keys order)

verdict-Ordering :
    (deps : String → List String) (keys ks : List String) (r : Visit)
    → IsSubset keys ks
    → Finds deps keys (λ seen. IsSubset ks seen) [] r
    → verdict r ≡ none
    → Ordering deps keys
verdict-Ordering deps keys ks (stopped e) h f q = cc
verdict-Ordering deps keys ks (visited seen) h f q = (seen, (f.0.0, λ k i. f.1 k (h k i)))

verdict-none : (r : Visit) → Ends r → NoCycle r → verdict r ≡ none
verdict-none (visited seen) h k = refl
verdict-none (stopped e) h k = search (k h)

-- A proposal of an allowed size.
pub record HasSize (p : PlanProposal) (max_steps min_steps : ℕ) : Type 0 where
  pub goal : p.goal ≢ ""
  pub enough : min_steps ≤ length p.steps
  pub few : length p.steps ≤ max_steps

validate-visits :
    (pattern : String → Bool) (range_order : List String → List String) (p : PlanProposal)
    (max_steps min_steps : ℕ) (external : String → Bool) (keys : List String)
    → HasSize p max_steps min_steps
    → collect_keys pattern p.steps [] ≡ some keys
    → any_bad_step keys external p.steps ≡ false
    → validate_plan_proposal pattern range_order p max_steps min_steps external
      ≡ verdict (visit_all (dependencies_of p.steps) keys (length keys + 1) [] (range_order keys))
unfolding validate_plan_proposal
validate-visits pattern range_order p max_steps min_steps external keys size found good =
    let fits : (p.goal == "" || (ltb (length p.steps) min_steps || ltb max_steps (length p.steps)))
        ≡ false =
      ground (arith, size.goal, size.enough, size.few, string_eq.same_key_iff p.goal "") in
    rw (fits, found, good, validate_plan_proposal) refl

-- Of a proposal of an allowed size, with keys that are valid and not repeated and no bad
-- dependency, and in whichever order all its keys are ranged over, the validation accepts exactly
-- those whose keys can be put in a list in which each stands before its dependencies.
pub validate_plan_proposal_iff :
    (pattern : String → Bool) (range_order : List String → List String) (p : PlanProposal)
    (max_steps min_steps : ℕ) (external : String → Bool) (keys : List String)
    → ((ks : List String) → IsSubset (range_order ks) ks × IsSubset ks (range_order ks))
    → HasSize p max_steps min_steps
    → collect_keys pattern p.steps [] ≡ some keys
    → any_bad_step keys external p.steps ≡ false
    → (validate_plan_proposal pattern range_order p max_steps min_steps external ≡ none)
      ↔ Ordering (dependencies_of p.steps) keys
validate_plan_proposal_iff pattern range_order p max_steps min_steps external keys range size found
      good =
    let deps = dependencies_of p.steps in
    let ks = range_order keys in
    let r = visit_all deps keys (length keys + 1) [] ks in
    let run =
      validate-visits pattern range_order p max_steps min_steps external keys size found good in
    (
      λ e.
          verdict-Ordering deps keys ks r (range keys).1
            (visit_all-Finds deps keys (length keys + 1) [] ks tt) (sym run ∙ e),
      λ x.
          run
          ∙ verdict-none r (visit_all-Ends deps keys [] ks (range keys).0)
              (visit_all-NoCycle deps keys x.0 x.1.0 x.1.1 (length keys + 1) [] ks (range keys).0),
    )
