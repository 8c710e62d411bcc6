-- ===== src/Plan/Counts.antt =====
-- The count of the dependencies that are done, internal/rpc/agent/memory/task_plan.go: the statement
-- counts the rows with a key of a list, so a key that the list repeats counts once.
use liveclass.Prelude.{
  ℕ, ◌+◌, ◌≤◌, ◌<◌, ◌≡◌, refl, sym, ap, ◌∙◌, Bool, true, false, ◌&&◌, ◌||◌, String, none, some,
  List, [], ◌∷◌, length, Table, lookup, IsKeyed, nat_beq, nat_beq_iff, ◌==◌, string_eq,
  if◌then◌else◌, Bool-cases, inl, inr, arith,
}
use liveclass.Plan.{
  done, is_status, TaskStep, dependencies_incomplete, is_in, count_steps, check_dependencies,
}
use liveclass.Plan.Proposal.{is_done, all_done}

-- A key stands twice in a list.
unfoldable pub repeats : List String → Bool
repeats [] = false
repeats (d ∷ ds) = is_in d ds || repeats ds

abbrev count_in : Table String TaskStep → List String → ℕ
count_in t ds = count_steps (λ k s. is_in k ds && is_status s.status done) t

abbrev count_one : Table String TaskStep → String → ℕ
count_one t d = count_steps (λ k s. (d == k) && is_status s.status done) t

abbrev one_if : Bool → ℕ
one_if b = if b then 1 else 0

beq_sym : (j k : String) → (j == k) ≡ (k == j)
beq_sym j k = ground (arith, string_eq.same_key_iff j k, string_eq.same_key_iff k j)

is_in-same : (d k : String) (ds : List String) → (d == k) ≡ true → is_in k ds ≡ is_in d ds
is_in-same d k ds h = ap (λ x. is_in x ds) (sym ((string_eq.same_key_iff d k).0 h))

count_in-nil : (t : Table String TaskStep) → count_in t [] ≡ 0
unfolding count_steps is_in
count_in-nil [] = refl
count_in-nil ((j, s) ∷ t) = count_in-nil t

count_in-again :
    (t : Table String TaskStep) (d : String) (ds : List String)
    → is_in d ds ≡ true
    → count_in t (d ∷ ds) ≡ count_in t ds
unfolding count_steps is_in
count_in-again [] d ds i = refl
count_in-again ((j, s) ∷ t) d ds i = ground (arith, is_in-same d j ds, count_in-again t d ds i)

count_in-cons :
    (t : Table String TaskStep) (d : String) (ds : List String)
    → is_in d ds ≡ false
    → count_in t (d ∷ ds) ≡ count_one t d + count_in t ds
unfolding count_steps is_in
count_in-cons [] d ds i = refl
count_in-cons ((j, s) ∷ t) d ds i = ground (arith, is_in-same d j ds, count_in-cons t d ds i)

count_one-done :
    (t : Table String TaskStep) (d : String) → IsKeyed t → count_one t d ≡ one_if (is_done t d)
unfolding count_steps lookup
count_one-done [] d u = refl
count_one-done ((j, s) ∷ t) d u = elim (Bool-cases (j == d)) [
  | inl hit ↦
      let same : j ≡ d = (string_eq.same_key_iff j d).0 hit in
      let free : lookup d t ≡ none = ap (λ x. lookup x t) (sym same) ∙ u.0 in
      let rest : count_one t d ≡ 0 =
        count_one-done t d u.1
        ∙ ap (λ o. one_if (elim o [ none ↦ false | some x ↦ is_status x.status done ])) free in
      ground (arith, beq_sym d j, hit, rest)
  | inr miss ↦ ground (arith, beq_sym d j, miss, count_one-done t d u.1)
]

count_in-le : (t : Table String TaskStep) (ds : List String) → IsKeyed t → count_in t ds ≤ length ds
count_in-le t [] u = omega (arith, count_in-nil t)
count_in-le t (d ∷ ds) u = elim (Bool-cases (is_in d ds)) [
  | inl i ↦ omega (arith, count_in-again t d ds i, count_in-le t ds u)
  | inr i ↦ ground (arith, count_in-cons t d ds i, count_one-done t d u, count_in-le t ds u)
]

count_in-repeats :
    (t : Table String TaskStep) (ds : List String)
    → IsKeyed t
    → repeats ds ≡ true
    → count_in t ds < length ds
unfolding repeats
count_in-repeats t [] u r = cc
count_in-repeats t (d ∷ ds) u r = elim (Bool-cases (is_in d ds)) [
  | inl i ↦ omega (arith, count_in-again t d ds i, count_in-le t ds u)
  | inr i ↦
      ground (arith, i, r, count_in-cons t d ds i, count_one-done t d u, count_in-repeats t ds u)
]

count_in-full :
    (t : Table String TaskStep) (ds : List String)
    → IsKeyed t
    → repeats ds ≡ false
    → nat_beq (count_in t ds) (length ds) ≡ all_done t ds
unfolding repeats all_done
count_in-full t [] u r = rw (count_in-nil t) refl
count_in-full t (d ∷ ds) u r =
    let i : is_in d ds ≡ false = ground arith in
    ground (
      arith,
      count_in-cons t d ds i,
      count_one-done t d u,
      count_in-le t ds u,
      count_in-full t ds u (ground arith),
      nat_beq_iff (count_in t ds) (length ds),
      nat_beq_iff (count_in t (d ∷ ds)) (length (d ∷ ds)),
    )

-- A step whose dependencies repeat a key is never allowed to run.
pub check_dependencies-repeats :
    (t : Table String TaskStep) (ds : List String)
    → IsKeyed t
    → repeats ds ≡ true
    → check_dependencies (some ds) t ≡ some dependencies_incomplete
unfolding check_dependencies
check_dependencies-repeats t ds u r =
    ground (arith, count_in-repeats t ds u r, nat_beq_iff (count_in t ds) (length ds))

-- Otherwise the count says whether they are all done.
pub check_dependencies-all_done :
    (t : Table String TaskStep) (ds : List String)
    → IsKeyed t
    → repeats ds ≡ false
    → check_dependencies (some ds) t
      ≡ (if all_done t ds then none else some dependencies_incomplete)
unfolding check_dependencies all_done
check_dependencies-all_done t [] u r = refl
check_dependencies-all_done t (d ∷ ds) u r = rw (count_in-full t (d ∷ ds) u r) (ground arith)
