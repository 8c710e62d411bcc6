-- ===== src/Plan/Visits.antt =====
-- What the visits of validatePlanProposal establish,
-- internal/rpc/agent/workflow/agent/plan_executor.go.
use liveclass.Prelude.{
  ℕ, zero, suc, ◌≡◌, true, String, List, [], ◌∷◌, ◌==◌, string_eq, Bool-cases, inl, inr, arith,
  beq_refl,
}
use liveclass.Plan.{is_in}
use liveclass.Plan.Proposal.{Visit, visited, stopped, finish, after, visit_each, visit, visit_all}

abbrev pub IsSubset : List String → List String → Type 0
IsSubset xs ys = (k : String) → is_in k xs ≡ true → is_in k ys ≡ true

module _ (deps : String → List String) (keys : List String) where
  -- The dependencies of a key that are keys stand in a list.
  abbrev pub IsMet : String → List String → Type 0
  IsMet k ks = (d : String) → is_in d (deps k) ≡ true → is_in d keys ≡ true → is_in d ks ≡ true

  -- Every key of a list stands before its dependencies.
  abbrev pub IsOrdered : List String → Type 0
  IsOrdered [] = Unit
  IsOrdered (k ∷ ks) = IsMet k ks × IsOrdered ks

  abbrev pub Finds : (List String → Type 0) → List String → Visit → Type 0
  Finds P seen (visited seen') = (IsOrdered seen' × IsSubset seen seen') × P seen'
  Finds P seen (stopped e) = Unit

  abbrev HasKeys : List String → List String → Type 0
  HasKeys ds seen = (d : String) → is_in d ds ≡ true → is_in d keys ≡ true → is_in d seen ≡ true

  Finds-map :
      (P Q : List String → Type 0) (seen : List String) (r : Visit)
      → Finds P seen r
      → ((seen' : List String) → IsSubset seen seen' → P seen' → Q seen')
      → Finds Q seen r
  Finds-map P Q seen (stopped e) h f = tt
  Finds-map P Q seen (visited seen') h f = (h.0, f seen' h.0.1 h.1)

  after-Finds :
      (P Q : List String → Type 0) (seen : List String) (r : Visit) (f : List String → Visit)
      → Finds P seen r
      → ((seen' : List String) → IsOrdered seen' → P seen' → Finds Q seen' (f seen'))
      → Finds Q seen (after r f)
  after-Finds P Q seen (stopped e) f h g = tt
  after-Finds P Q seen (visited seen') f h g = widen (f seen') (g seen' h.0.0 h.1)
    where
      widen : (r : Visit) → Finds Q seen' r → Finds Q seen r
      widen (stopped e) w = tt
      widen (visited seen'') w = ((w.0.0, λ k i. w.0.1 k (h.0.1 k i)), w.1)

  HasKeys-cons :
      (d : String) (ds seen : List String)
      → (is_in d keys ≡ true → is_in d seen ≡ true)
      → HasKeys ds seen
      → HasKeys (d ∷ ds) seen
  unfolding is_in
  HasKeys-cons d ds seen first rest k i j = elim (Bool-cases (d == k)) [
    | inl hit ↦
        let same : d ≡ k = (string_eq.same_key_iff d k).0 hit in rw (← same) (first (rw same j))
    | inr miss ↦ rest k (ground arith) j
  ]

  visit_each-Finds :
      (v : List String → String → Visit)
      → ((seen : List String) (d : String)
          → IsOrdered seen
          → Finds (λ seen'. is_in d seen' ≡ true) seen (v seen d))
      → (seen ds : List String) → IsOrdered seen
      → Finds (HasKeys ds) seen (visit_each keys v seen ds)
  unfolding visit_each is_in
  visit_each-Finds v h seen [] o = ((o, λ k i. i), λ d i. cc)
  visit_each-Finds v h seen (d ∷ ds) o = elim (Bool-cases (is_in d keys)) [
    | inl e ↦
        rw (e, visit_each)
          (after-Finds (λ seen'. is_in d seen' ≡ true) (HasKeys (d ∷ ds)) seen (v seen d)
            (λ seen'. visit_each keys v seen' ds) (h seen d o)
            (λ seen' o' i.
              Finds-map (HasKeys ds) (HasKeys (d ∷ ds)) seen' (visit_each keys v seen' ds)
                (visit_each-Finds v h seen' ds o')
                (λ seen'' sub hk. HasKeys-cons d ds seen'' (λ j. sub d i) hk)))
    | inr e ↦
        rw (e, visit_each)
          (Finds-map (HasKeys ds) (HasKeys (d ∷ ds)) seen (visit_each keys v seen ds)
            (visit_each-Finds v h seen ds o)
            (λ seen' sub hk. HasKeys-cons d ds seen' (λ j. cc (e, j)) hk))
  ]

  finish-Finds :
      (k : String) (seen : List String) (r : Visit)
      → Finds (HasKeys (deps k)) seen r
      → Finds (λ seen'. is_in k seen' ≡ true) seen (finish k r)
  unfolding is_in
  finish-Finds k seen (stopped e) h = tt
  finish-Finds k seen (visited seen') h =
      (((h.1, h.0.0), λ x i. ground (arith, h.0.1 x i)), ground (arith, beq_refl k))

  visit-Finds :
      (fuel : ℕ) (visiting seen : List String) (k : String)
      → IsOrdered seen
      → Finds (λ seen'. is_in k seen' ≡ true) seen (visit deps keys fuel visiting seen k)
  unfolding visit
  visit-Finds zero visiting seen k o = tt
  visit-Finds (suc fuel) visiting seen k o = elim (Bool-cases (is_in k visiting)) [
    | inl e ↦ rw (e, visit) tt
    | inr e ↦ elim (Bool-cases (is_in k seen)) [
      | inl f ↦ rw (e, visit, f) ((o, λ x i. i), f)
      | inr f ↦
          rw (e, visit, f)
            (finish-Finds k seen
              (visit_each keys (visit deps keys fuel (k ∷ visiting)) seen (deps k))
              (visit_each-Finds (visit deps keys fuel (k ∷ visiting))
                (λ seen' d o'. visit-Finds fuel (k ∷ visiting) seen' d o') seen (deps k) o))
    ]
  ]

  pub visit_all-Finds :
      (fuel : ℕ) (seen ks : List String)
      → IsOrdered seen
      → Finds (λ seen'. IsSubset ks seen') seen (visit_all deps keys fuel seen ks)
  unfolding visit_all is_in
  visit_all-Finds fuel seen [] o = ((o, λ k i. i), λ k i. cc)
  visit_all-Finds fuel seen (k ∷ ks) o =
      after-Finds (λ seen'. is_in k seen' ≡ true) (λ seen'. IsSubset (k ∷ ks) seen') seen
        (visit deps keys fuel [] seen k) (λ seen'. visit_all deps keys fuel seen' ks)
        (visit-Finds fuel [] seen k o)
        (λ seen' o' i.
          Finds-map (λ s. IsSubset ks s) (λ s. IsSubset (k ∷ ks) s) seen'
            (visit_all deps keys fuel seen' ks) (visit_all-Finds fuel seen' ks o')
            (λ seen'' sub all x j. elim (Bool-cases (k == x)) [
              | inl hit ↦ rw (← (string_eq.same_key_iff k x).0 hit) (sub k i)
              | inr miss ↦ all x (ground arith)
            ]))
