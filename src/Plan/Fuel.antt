-- ===== src/Plan/Fuel.antt =====
-- The visits of validatePlanProposal end, internal/rpc/agent/workflow/agent/plan_executor.go: a visit
-- nests only in visits of other keys, so the fuel of one more than the number of keys is never used
-- up.
use liveclass.Prelude.{
  ℕ, zero, suc, ◌+◌, ◌≤◌, ◌<◌, ◌≡◌, ◌≢◌, refl, Bool, true, false, ◌||◌, String, Option, none, some,
  List, [], ◌∷◌, length, ltb, ◌==◌, string_eq, if◌then◌else◌, if_holds, Bool-cases, inl, inr, arith,
  beq_refl,
}
use liveclass.Plan.{is_in}
use liveclass.Plan.Proposal.{
  PlanProposal, ProposalError, invalid_step, invalid_dependency, cycle, out_of_fuel, Visit, visited,
  stopped, finish, after, visit_each, visit, visit_all, collect_keys, any_bad_step, dependencies_of,
  validate_plan_proposal, verdict,
}
use liveclass.Plan.Visits.{IsSubset}

-- How many entries of a list are not in another.
unfoldable count_out : List String → List String → ℕ
count_out v [] = 0
count_out v (x ∷ xs) = if is_in x v then count_out v xs else suc (count_out v xs)

count_out-cons-le : (k : String) (v xs : List String) → count_out (k ∷ v) xs ≤ count_out v xs
unfolding count_out is_in
count_out-cons-le k v [] = omega arith
count_out-cons-le k v (x ∷ xs) = ground (arith, count_out-cons-le k v xs)

count_out-cons-lt :
    (k : String) (v xs : List String)
    → is_in k xs ≡ true
    → is_in k v ≡ false
    → count_out (k ∷ v) xs < count_out v xs
unfolding count_out is_in
count_out-cons-lt k v [] i o = cc
count_out-cons-lt k v (x ∷ xs) i o = elim (Bool-cases (x == k)) [
  | inl hit ↦
      let same : x ≡ k = (string_eq.same_key_iff x k).0 hit in
      rw same (ground (arith, o, beq_refl k, count_out-cons-le k v xs))
  | inr miss ↦ ground (arith, miss, count_out-cons-lt k v xs (ground arith) o)
]

count_out-nil : (xs : List String) → count_out [] xs ≡ length xs
unfolding count_out is_in
count_out-nil [] = refl
count_out-nil (x ∷ xs) = omega (arith, count_out-nil xs)

-- A visit that stops has found a cycle.
abbrev pub Ends : Visit → Type 0
Ends (visited seen) = Unit
Ends (stopped e) = e ≡ cycle

finish-Ends : (k : String) (r : Visit) → Ends r → Ends (finish k r)
finish-Ends k (visited seen) h = tt
finish-Ends k (stopped e) h = h

after-Ends :
    (r : Visit) (f : List String → Visit)
    → Ends r
    → ((seen : List String) → Ends (f seen))
    → Ends (after r f)
after-Ends (visited seen) f h g = g seen
after-Ends (stopped e) f h g = h

module _ (deps : String → List String) (keys : List String) where
  visit_each-Ends :
      (v : List String → String → Visit)
      → ((seen : List String) (d : String) → is_in d keys ≡ true → Ends (v seen d))
      → (seen ds : List String) → Ends (visit_each keys v seen ds)
  unfolding visit_each
  visit_each-Ends v h seen [] = tt
  visit_each-Ends v h seen (d ∷ ds) = elim (Bool-cases (is_in d keys)) [
    | inl e ↦
        rw (e, visit_each)
          (after-Ends (v seen d) (λ seen'. visit_each keys v seen' ds) (h seen d e)
            (λ seen'. visit_each-Ends v h seen' ds))
    | inr e ↦ rw (e, visit_each) (visit_each-Ends v h seen ds)
  ]

  visit-Ends :
      (fuel : ℕ) (visiting seen : List String) (k : String)
      → is_in k keys ≡ true
      → count_out visiting keys < fuel
      → Ends (visit deps keys fuel visiting seen k)
  unfolding visit
  visit-Ends zero visiting seen k i enough = ground (arith, enough)
  visit-Ends (suc fuel) visiting seen k i enough = elim (Bool-cases (is_in k visiting)) [
    | inl e ↦ rw (e, visit) refl
    | inr e ↦ elim (Bool-cases (is_in k seen)) [
      | inl f ↦ rw (e, visit, f) tt
      | inr f ↦
          let less = count_out-cons-lt k visiting keys i e in
          rw (e, visit, f)
            (finish-Ends k (visit_each keys (visit deps keys fuel (k ∷ visiting)) seen (deps k)) (
              visit_each-Ends (visit deps keys fuel (k ∷ visiting))
                (λ seen' d j.
                  visit-Ends fuel (k ∷ visiting) seen' d j (omega (arith, less, enough)))
                seen (deps k)))
    ]
  ]

  pub visit_all-Ends :
      (seen ks : List String)
      → IsSubset ks keys
      → Ends (visit_all deps keys (length keys + 1) seen ks)
  unfolding visit_all is_in
  visit_all-Ends seen [] h = tt
  visit_all-Ends seen (k ∷ ks) h =
      after-Ends (visit deps keys (length keys + 1) [] seen k)
        (λ seen'. visit_all deps keys (length keys + 1) seen' ks)
        (visit-Ends (length keys + 1) [] seen k (h k (ground (arith, beq_refl k)))
          (omega (arith, count_out-nil keys)))
        (λ seen'. visit_all-Ends seen' ks (λ x i. h x (ground (arith, i))))

verdict-Ends : (r : Visit) → Ends r → verdict r ≢ some out_of_fuel
verdict-Ends (visited seen) h q = cc
verdict-Ends (stopped e) h q = cc (h, q)

-- Whichever proposal is validated, in whichever order its keys are ranged over, the validation
-- never runs out of fuel.
pub validate_plan_proposal-ends :
    (pattern : String → Bool) (range_order : List String → List String) (p : PlanProposal)
    (max_steps min_steps : ℕ) (external : String → Bool)
    → ((ks : List String) → IsSubset (range_order ks) ks)
    → validate_plan_proposal pattern range_order p max_steps min_steps external ≢ some out_of_fuel
unfolding validate_plan_proposal
validate_plan_proposal-ends pattern range_order p max_steps min_steps external h =
    let Q : Option ProposalError → Type 0 = λ r. r ≢ some out_of_fuel in
    if_holds Q (p.goal == "" || (ltb (length p.steps) min_steps || ltb max_steps (length p.steps)))
      _ _ (λ (e : _ ≡ true). λ q. cc) (λ (e : _ ≡ false). on_keys (collect_keys pattern p.steps []))
  where
    on_keys :
        (found : Option (List String))
        → elim found [
          | none ↦ some invalid_step
          | some keys ↦
              if any_bad_step keys external p.steps
              then some invalid_dependency
              else verdict
                  (visit_all (dependencies_of p.steps) keys (length keys + 1) [] (range_order keys))
        ]
          ≢ some out_of_fuel
    on_keys none = λ q. cc
    on_keys (some keys) =
        let Q : Option ProposalError → Type 0 = λ r. r ≢ some out_of_fuel in
        if_holds Q (any_bad_step keys external p.steps) _ _ (λ (e : _ ≡ true). λ q. cc)
          (λ (e : _ ≡ false).
            verdict-Ends
              (visit_all (dependencies_of p.steps) keys (length keys + 1) [] (range_order keys))
              (visit_all-Ends (dependencies_of p.steps) keys [] (range_order keys) (h keys)))
