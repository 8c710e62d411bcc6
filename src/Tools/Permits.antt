-- ===== src/Tools/Permits.antt =====
-- A tool is called only as far as its permission allows,
-- internal/rpc/agent/toolruntime/runtime.go.
use liveclass.Prelude.{
  ℕ, zero, suc, ◌+◌, ◌≤◌, ◌<◌, ◌≡◌, ◌⊎◌, refl, Bool, true, false, not, ◌&&◌, ◌||◌, String, Option,
  none, some, nat_beq, ◌==◌, int_eq, string_eq, if◌then◌else◌, if_holds, Option-cases, inl, inr,
  arith,
}
use liveclass.Prelude.Int.{ℤ, is_positive}
use liveclass.Tools.{
  output, Permission, public, authenticated, own_user, lesson_member, admin, approval,
  unknown_policy, ToolSpec, Principal, AuthError, unauthenticated, not_allowlisted,
  role_not_allowlisted, needs_approval, not_complex, Strings, tool_listed, is_high, role_listed,
  check_permission, authorize_principal, is_public, authorize, Attempt, ToolResult, may_retry,
  run_attempts, Formats, run_checked, invokable_run,
}

-- What a permission asks of a principal.
abbrev pub Meets : Permission → ToolSpec → Principal → ℤ → Type 0
Meets public spec p requested = Unit
Meets authenticated spec p requested = Unit
Meets own_user spec p requested = requested ≡ p.user_id
Meets lesson_member spec p requested = is_positive p.lesson_id ≡ true
Meets admin spec p requested = p.role ≡ "admin"
Meets approval spec p requested = p.approved_tools spec.name ≡ true
Meets (unknown_policy s) spec p requested = ¬ Unit

-- A signed-in principal whom the lists and the permission let use the tool.
pub record IsPermitted (str : Strings) (spec : ToolSpec) (p : Principal) (requested : ℤ)
    : Type 0 where
  pub signed_in : is_positive p.user_id ≡ true
  pub tool : tool_listed p.allowed_tools spec.name ≡ true
  pub role : role_listed str spec.allowed_roles p.role ≡ true
  pub approved : is_high spec.risk_level ≡ true → p.approved_tools spec.name ≡ true
  pub planned : spec.complex_task ≡ "required" → p.allow_planning ≡ true
  pub meets : Meets spec.permission spec p requested

-- The tool is public, or its user is permitted.
abbrev pub MayCall : Strings → ToolSpec → Option Principal → ℤ → Type 0
MayCall str spec principal requested =
    (is_public str spec.permission ≡ true)
    ⊎ ((p : Principal) × ((principal ≡ some p) × IsPermitted str spec p requested))

check_permission-Meets :
    (str : Strings) (x : Permission) (spec : ToolSpec) (p : Principal) (requested : ℤ)
    → check_permission str x spec p requested ≡ none
    → Meets x spec p requested
unfolding check_permission
check_permission-Meets str public spec p requested h = cc
check_permission-Meets str authenticated spec p requested h = tt
check_permission-Meets str own_user spec p requested h =
    (int_eq.same_key_iff requested p.user_id).0 (ground (arith, h))
check_permission-Meets str lesson_member spec p requested h = ground (arith, h)
check_permission-Meets str admin spec p requested h =
    (string_eq.same_key_iff p.role "admin").0 (ground (arith, h))
check_permission-Meets str approval spec p requested h = ground (arith, h)
check_permission-Meets str (unknown_policy s) spec p requested h = cc

-- A check that reports no error.
unless :
    {A : Type 0} (b : Bool) (e : A) (y : Option A)
    → (if b then some e else y) ≡ none
    → (b ≡ false) × (y ≡ none)
unless true e y h = cc
unless false e y h = (refl, h)

authorize_principal-IsPermitted :
    (str : Strings) (spec : ToolSpec) (p : Principal) (requested : ℤ)
    → authorize_principal str spec (some p) requested ≡ none
    → IsPermitted str spec p requested
unfolding authorize_principal
authorize_principal-IsPermitted str spec p requested h =
    let (signed, h1) = unless (not (is_positive p.user_id)) unauthenticated _ h in
    let (listed, h2) = unless (not (tool_listed p.allowed_tools spec.name)) not_allowlisted _ h1 in
    let (role, h3) =
      unless (not (role_listed str spec.allowed_roles p.role)) role_not_allowlisted _ h2 in
    let (risk, h4) =
      unless (is_high spec.risk_level && not (p.approved_tools spec.name)) needs_approval _ h3 in
    let (plan, h5) =
      unless ((spec.complex_task == "required") && not p.allow_planning) not_complex _ h4 in
    record {
      signed_in = ground (arith, signed);
      tool = ground (arith, listed);
      role = ground (arith, role);
      approved = λ e. ground (arith, risk, e);
      planned =
          λ e. ground (arith, plan, (string_eq.same_key_iff spec.complex_task "required").1 e);
      meets = check_permission-Meets str spec.permission spec p requested h5;
    }

authorize-MayCall :
    (str : Strings) (spec : ToolSpec) (principal : Option Principal) (requested : ℤ)
    → authorize str spec principal requested ≡ none
    → MayCall str spec principal requested
unfolding authorize authorize_principal
authorize-MayCall str spec principal requested =
    if_holds (λ r. r ≡ none → MayCall str spec principal requested) (is_public str spec.permission)
      _ _ (λ (e : is_public str spec.permission ≡ true). λ h. inl e)
      (λ (e : is_public str spec.permission ≡ false). of_principal principal)
  where
    of_principal :
        (q : Option Principal)
        → authorize_principal str spec q requested ≡ none
        → MayCall str spec q requested
    of_principal none h = cc
    of_principal (some p) h =
        inr (p, (refl, authorize_principal-IsPermitted str spec p requested h))

run_attempts-le :
    (left n : ℕ) (env : ℕ → Attempt) (last : ToolResult) → (run_attempts left n env last).1 ≤ left
unfolding run_attempts
run_attempts-le zero n env last = omega arith
run_attempts-le (suc left) n env last =
    let Q : ToolResult × ℕ → Type 0 = λ x. x.1 ≤ suc left in
    if_holds Q (not (may_retry (env n).reply) || nat_beq left 0) _ _ (λ (e : _ ≡ true). omega arith)
      (λ (e : _ ≡ false). omega (arith, run_attempts-le left (n + 1) env _))

-- However a run of a tool ends, the tool was called no more often than it has attempts, and not at
-- all unless its input is valid and it is public or its user is signed in, listed by tool and role,
-- approved where the risk is high, allowed to plan where that is required, and meets the tool's
-- permission.
pub invokable_run-MayCall :
    (str : Strings) (fmt : Formats) (spec : ToolSpec) (principal : Option Principal)
    (arguments : String) (env : ℕ → Attempt)
    → let calls = (invokable_run str fmt spec principal arguments env).1 in
      (calls ≤ spec.attempts)
      × (0 < calls
          → (requested : ℤ) × ((fmt.user_id_of arguments ≡ some requested)
              × MayCall str spec principal requested))
unfolding invokable_run run_checked
invokable_run-MayCall str fmt spec principal arguments env =
    elim (Option-cases (fmt.user_id_of arguments)) [
      | inl e ↦ rw (e, invokable_run) (omega arith, λ l. absurd (omega (arith, l)))
      | inr (requested, e) ↦
          let (few, only) = run_checked-calls (authorize str spec principal requested) in
          rw (e, invokable_run)
            (few, λ l. (requested, (refl, authorize-MayCall str spec principal requested (only l))))
    ]
  where
    run_checked-calls :
        (o : Option AuthError)
        → ((run_checked str fmt spec env o).1 ≤ spec.attempts)
          × (0 < (run_checked str fmt spec env o).1 → o ≡ none)
    run_checked-calls none = (run_attempts-le spec.attempts 1 env (output ""), λ l. refl)
    run_checked-calls (some e) = (omega arith, λ l. absurd (omega (arith, l)))
