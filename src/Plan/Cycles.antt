-- ===== src/Plan/Cycles.antt =====
-- When validatePlanProposal reports a cycle, internal/rpc/agent/workflow/agent/plan_executor.go:
-- where the keys can be ordered by their dependencies, no visit comes back to a key that is being
-- visited.
use liveclass.Prelude.{
  ℕ, zero, suc, ◌≤◌, ◌<◌, ◌≡◌, ◌≢◌, true, String, List, [], ◌∷◌, length, All, ◌==◌, string_eq,
  if◌then◌else◌, Bool-cases, inl, inr, arith, beq_refl,
}
use liveclass.Plan.{is_in}
use liveclass.Plan.Proposal.{
  cycle, Visit, visited, stopped, finish, after, visit_each, visit, visit_all,
}
use liveclass.Plan.Visits.{IsSubset, IsOrdered}

-- How far from the end a key stands in a list, at its last place.
unfoldable rank : String → List String → ℕ
rank k [] = 0
rank k (x ∷ xs) =
    let rest = rank k xs in if is_in k xs then rest else if x == k then suc (length xs) else 0

rank-le : (k : String) (xs : List String) → rank k xs ≤ length xs
unfolding rank
rank-le k [] = omega arith
rank-le k (x ∷ xs) = ground (arith, rank-le k xs)

-- A visit that stops has run out of fuel.
abbrev pub NoCycle : Visit → Type 0
NoCycle (visited seen) = Unit
NoCycle (stopped e) = e ≢ cycle

finish-NoCycle : (k : String) (r : Visit) → NoCycle r → NoCycle (finish k r)
finish-NoCycle k (visited seen) h = tt
finish-NoCycle k (stopped e) h = h

after-NoCycle :
    (r : Visit) (f : List String → Visit)
    → NoCycle r
    → ((seen : List String) → NoCycle (f seen))
    → NoCycle (after r f)
after-NoCycle (visited seen) f h g = g seen
after-NoCycle (stopped e) f h g = h

All-is_in :
    (P : String → Type 0) (k : String) (xs : List String) → All P xs → is_in k xs ≡ true → P k
unfolding is_in
All-is_in P k [] h i = cc
All-is_in P k (x ∷ xs) h i = elim (Bool-cases (x == k)) [
  | inl hit ↦ rw (← (string_eq.same_key_iff x k).0 hit) h.0
  | inr miss ↦ All-is_in P k xs h.1 (ground arith)
]

module _ (deps : String → List String) (keys : List String) where
  dep-there :
      (xs : List String) (k d : String)
      → IsOrdered deps keys xs
      → is_in k xs ≡ true
      → is_in d (deps k) ≡ true
      → is_in d keys ≡ true
      → is_in d xs ≡ true
  unfolding is_in
  dep-there [] k d o i j l = cc
  dep-there (x ∷ xs) k d o i j l = elim (Bool-cases (x == k)) [
    | inl hit ↦
        let same : x ≡ k = (string_eq.same_key_iff x k).0 hit in ground (arith, o.0 d (rw same j) l)
    | inr miss ↦ ground (arith, dep-there xs k d o.1 (ground arith) j l)
  ]

  rank-dep-lt :
      (xs : List String) (k d : String)
      → IsOrdered deps keys xs
      → is_in k xs ≡ true
      → is_in d (deps k) ≡ true
      → is_in d keys ≡ true
      → rank d xs < rank k xs
  unfolding is_in rank
  rank-dep-lt [] k d o i j l = cc
  rank-dep-lt (x ∷ xs) k d o i j l = elim (Bool-cases (is_in k xs)) [
    | inl e ↦ ground (arith, e, dep-there xs k d o.1 e j l, rank-dep-lt xs k d o.1 e j l)
    | inr e ↦
        let hit : (x == k) ≡ true = ground (arith, e, i) in
        let same : x ≡ k = (string_eq.same_key_iff x k).0 hit in
        let there : is_in d xs ≡ true = o.0 d (rw same j) l in
        ground (arith, e, hit, there, rank-le d xs)
  ]

  module _ (order : List String) (o : IsOrdered deps keys order) (full : IsSubset keys order) where
    visit_each-NoCycle :
        (v : List String → String → Visit) (ds : List String)
        → ((seen : List String) (d : String)
            → is_in d ds ≡ true
            → is_in d keys ≡ true
            → NoCycle (v seen d))
        → (seen : List String) → NoCycle (visit_each keys v seen ds)
    unfolding visit_each is_in
    visit_each-NoCycle v [] h seen = tt
    visit_each-NoCycle v (d ∷ ds) h seen =
        let rest : (seen' : List String) → NoCycle (visit_each keys v seen' ds) =
          visit_each-NoCycle v ds (λ s x i j. h s x (ground (arith, i)) j) in
        elim (Bool-cases (is_in d keys)) [
          | inl e ↦
              rw (e, visit_each)
                (after-NoCycle (v seen d) (λ seen'. visit_each keys v seen' ds)
                  (h seen d (ground (arith, beq_refl d)) e) rest)
          | inr e ↦ rw (e, visit_each) (rest seen)
        ]

    visit-NoCycle :
        (fuel : ℕ) (visiting seen : List String) (k : String)
        → is_in k keys ≡ true
        → All (λ v. rank k order < rank v order) visiting
        → NoCycle (visit deps keys fuel visiting seen k)
    unfolding visit
    visit-NoCycle zero visiting seen k i above = λ q. cc
    visit-NoCycle (suc fuel) visiting seen k i above = elim (Bool-cases (is_in k visiting)) [
      | inl e ↦
          let no = All-is_in (λ v. rank k order < rank v order) k visiting above e in
          rw (e, visit) (λ q. omega (arith, no))
      | inr e ↦ elim (Bool-cases (is_in k seen)) [
        | inl f ↦ rw (e, visit, f) tt
        | inr f ↦
            rw (e, visit, f)
              (finish-NoCycle k
                (visit_each keys (visit deps keys fuel (k ∷ visiting)) seen (deps k))
                (visit_each-NoCycle (visit deps keys fuel (k ∷ visiting)) (deps k)
                  (λ seen' d j l.
                    let less = rank-dep-lt order k d o (full k i) j l in
                    visit-NoCycle fuel (k ∷ visiting) seen' d l
                      (less, lower k d visiting less above))
                  seen))
      ]
    ]
      where
        lower :
            (k d : String) (vs : List String)
            → rank d order < rank k order
            → All (λ v. rank k order < rank v order) vs
            → All (λ v. rank d order < rank v order) vs
        lower k d [] less h = tt
        lower k d (v ∷ vs) less h = (omega (arith, less, h.0), lower k d vs less h.1)

    pub visit_all-NoCycle :
        (fuel : ℕ) (seen ks : List String)
        → IsSubset ks keys
        → NoCycle (visit_all deps keys fuel seen ks)
    unfolding visit_all is_in
    visit_all-NoCycle fuel seen [] h = tt
    visit_all-NoCycle fuel seen (k ∷ ks) h =
        after-NoCycle (visit deps keys fuel [] seen k) (λ seen'. visit_all deps keys fuel seen' ks)
          (visit-NoCycle fuel [] seen k (h k (ground (arith, beq_refl k))) tt)
          (λ seen'. visit_all-NoCycle fuel seen' ks (λ x i. h x (ground (arith, i))))
