-- ===== src/Tools.antt =====
-- The tool runtime of the assistant, internal/rpc/agent/toolruntime/runtime.go: the permission check
-- and the run of a wrapped tool. Package strings, JSON, the schemas and the repairer are parameters; a
-- number of a JSON object is taken as the int64 that it converts to.
pub mod Permits
pub mod Tests
use liveclass.Prelude.{
  ℕ, zero, suc, ◌+◌, Bool, true, false, not, ◌&&◌, ◌||◌, String, Option, none, some, List, [], ◌∷◌,
  leb, nat_beq, ◌==◌, int_eq, string_eq, if◌then◌else◌,
}
use liveclass.Prelude.Int.{ℤ, is_positive}

pub data Permission : Type 0 where
  public authenticated own_user lesson_member admin approval : Permission
  unknown_policy : String → Permission

pub data RiskLevel : Type 0 where
  read_only low high : RiskLevel

pub record ToolSpec : Type 0 where
  pub name : String
  pub permission : Permission
  pub attempts : ℕ
  pub risk_level : RiskLevel
  pub allowed_roles : String  -- Metadata["allowed_roles"]
  pub complex_task : String  -- Metadata["complex_task"]

pub record Principal : Type 0 where
  pub user_id : ℤ
  pub role : String
  pub lesson_id : ℤ
  pub approved_tools : String → Bool
  pub allowed_tools : Option (String → Bool)
  pub allow_planning : Bool

pub data AuthError : Type 0 where
  unauthenticated not_allowlisted role_not_allowlisted needs_approval not_complex : AuthError
  cross_user no_lesson_scope admin_required approval_required unknown : AuthError

-- strings.TrimSpace and strings.Split by a comma.
pub record Strings : Type 0 where
  pub trim_space : String → String
  pub split_commas : String → List String

abbrev pub tool_listed : Option (String → Bool) → String → Bool
tool_listed none name = true
tool_listed (some tools) name = tools name

abbrev pub is_high : RiskLevel → Bool
is_high read_only = false
is_high low = false
is_high high = true

module _ (str : Strings) where
  -- The loop over the allowed roles.
  unfoldable pub has_role : String → List String → Bool
  has_role role [] = false
  has_role role (x ∷ xs) = str.trim_space x == role || has_role role xs

  unfoldable pub role_listed : String → String → Bool
  role_listed roles role =
      let trimmed = str.trim_space roles in
      trimmed == "" || has_role role (str.split_commas trimmed)

  -- The switch on the permission; `requested` is the input's user_id.
  unfoldable pub check_permission : Permission → ToolSpec → Principal → ℤ → Option AuthError
  check_permission public spec p requested = some unknown
  check_permission authenticated spec p requested = none
  check_permission own_user spec p requested =
      if requested == p.user_id then none else some cross_user
  check_permission lesson_member spec p requested =
      if is_positive p.lesson_id then none else some no_lesson_scope
  check_permission admin spec p requested = if p.role == "admin" then none else some admin_required
  check_permission approval spec p requested =
      if p.approved_tools spec.name then none else some approval_required
  check_permission (unknown_policy s) spec p requested = some unknown

  -- The part of `authorize` after the check for a public tool.
  unfoldable pub authorize_principal : ToolSpec → Option Principal → ℤ → Option AuthError
  authorize_principal spec none requested = some unauthenticated
  authorize_principal spec (some p) requested =
      if not (is_positive p.user_id)
      then some unauthenticated
      else if not (tool_listed p.allowed_tools spec.name)
      then some not_allowlisted
      else if not (role_listed spec.allowed_roles p.role)
      then some role_not_allowlisted
      else if is_high spec.risk_level && not (p.approved_tools spec.name)
      then some needs_approval
      else if (spec.complex_task == "required") && not p.allow_planning
      then some not_complex
      else check_permission spec.permission spec p requested

  abbrev pub is_public : Permission → Bool
  is_public public = true
  is_public authenticated = false
  is_public own_user = false
  is_public lesson_member = false
  is_public admin = false
  is_public approval = false
  is_public (unknown_policy s) = false

  -- authorize
  unfoldable pub authorize : ToolSpec → Option Principal → ℤ → Option AuthError
  authorize spec principal requested =
      if is_public spec.permission then none else authorize_principal spec principal requested

-- What the environment does in an attempt: the tool's reply, whether its error is transient, and
-- whether the context is done in the wait before the next attempt.
pub data ToolReply : Type 0 where
  returns : String → ToolReply
  fails : String → Bool → ToolReply

pub record Attempt : Type 0 where
  pub reply : ToolReply
  pub ctx_err : Option String

pub data ToolResult : Type 0 where
  output : String → ToolResult
  failed : String → ToolResult
  denied : AuthError → ToolResult
  invalid_input : ToolResult

abbrev pub reply_result : ToolReply → ToolResult
reply_result (returns text) = output text
reply_result (fails e transient) = failed e

abbrev pub may_retry : ToolReply → Bool
may_retry (returns text) = false
may_retry (fails e transient) = transient

-- The loop over the attempts: the result and the number of calls. A context that is done in the wait
-- only sets the error, which the next call overwrites.
unfoldable pub run_attempts : ℕ → ℕ → (ℕ → Attempt) → ToolResult → ToolResult × ℕ
run_attempts zero n env last = (last, 0)
run_attempts (suc left) n env last =
    let (result, calls) = run_attempts left (n + 1) env (waited (env n)) in
    if not (may_retry (env n).reply) || nat_beq left 0
    then (reply_result (env n).reply, 1)
    else (result, calls + 1)
  where
    waited : Attempt → ToolResult
    waited a = elim a.ctx_err [ none ↦ reply_result a.reply | some e ↦ failed e ]

-- The tool's input and output: JSON with the schemas, and the repairer; no schema finds no error.
pub record Formats : Type 0 where
  pub user_id_of : String → Option ℤ  -- of a valid input, 0 if it has none
  pub check_output : String → Option String
  pub repair : Option (String → String → ToolResult)

module _ (str : Strings) (fmt : Formats) where
  unfoldable pub check_repaired : ToolResult → ToolResult
  check_repaired (output text) = elim (fmt.check_output text) [
    | none ↦ output text
    | some e ↦ failed e
  ]
  check_repaired (failed e) = failed e
  check_repaired (denied e) = denied e
  check_repaired invalid_input = invalid_input

  -- The output is validated, repaired once, and validated again.
  unfoldable pub finish_output : ToolResult → ToolResult
  finish_output (output text) = elim (fmt.check_output text) [
    | none ↦ output text
    | some e ↦ elim fmt.repair [ none ↦ failed e | some f ↦ check_repaired (f text e) ]
  ]
  finish_output (failed e) = failed e
  finish_output (denied e) = denied e
  finish_output invalid_input = invalid_input

  -- The run after the permission check.
  unfoldable pub run_checked : ToolSpec → (ℕ → Attempt) → Option AuthError → ToolResult × ℕ
  run_checked spec env (some e) = (denied e, 0)
  run_checked spec env none =
      let (result, calls) = run_attempts spec.attempts 1 env (output "") in
      (finish_output result, calls)

  -- InvokableRun: the result and the number of calls of the tool.
  unfoldable pub invokable_run :
      ToolSpec → Option Principal → String → (ℕ → Attempt) → ToolResult × ℕ
  invokable_run spec principal arguments env = elim (fmt.user_id_of arguments) [
    | none ↦ (invalid_input, 0)
    | some requested ↦ run_checked spec env (authorize str spec principal requested)
  ]
