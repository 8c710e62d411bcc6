-- ===== src/Tools/Tests.antt =====
-- Runs of a tool of internal/rpc/agent/toolruntime.
use liveclass.Prelude.{
  ℕ, zero, suc, ◌≤◌, ◌<◌, ◌≡◌, refl, true, false, none, some, [], ◌∷◌, string_eq, int_eq,
}
use liveclass.Prelude.Int.{ℤ, pos}
use liveclass.Tools.{
  own_user, high, ToolSpec, Principal, Strings, has_role, role_listed, check_permission,
  authorize_principal, authorize, returns, fails, Attempt, output, run_attempts, Formats,
  finish_output, run_checked, invokable_run,
}
use liveclass.Tools.Permits.{MayCall, invokable_run-MayCall}

abbrev one_word : Strings
one_word = record { trim_space = λ s. s; split_commas = λ s. s ∷ [] }

abbrev user_seven : Formats
user_seven = record { user_id_of = λ s. some (pos 7); check_output = λ s. none; repair = none }

abbrev own_tool : ToolSpec
own_tool = record {
  name = "tool";
  permission = own_user;
  attempts = 3;
  risk_level = high;
  allowed_roles = "student";
  complex_task = "";
}

abbrev student : Principal
student = record {
  user_id = pos 7;
  role = "student";
  lesson_id = pos 0;
  approved_tools = λ s. true;
  allowed_tools = none;
  allow_planning = false;
}

-- A transient error, after which the context is done, and then an answer.
abbrev cancelled_once : ℕ → Attempt
cancelled_once zero = record { reply = returns "text"; ctx_err = none }
cancelled_once (suc zero) = record { reply = fails "busy" true; ctx_err = some "canceled" }
cancelled_once (suc (suc n)) = record { reply = returns "text"; ctx_err = none }

calls_again :
    invokable_run one_word user_seven own_tool (some student) "{}" cancelled_once
    ≡ (output "text", 2)
unfolding invokable_run run_checked run_attempts finish_output authorize authorize_principal
    check_permission role_listed has_role
calls_again = refl

invokable_run-MayCall_example :
    let calls = (invokable_run one_word user_seven own_tool (some student) "{}" cancelled_once).1 in
    (calls ≤ 3)
    × (0 < calls
        → (requested : ℤ) × ((some (pos 7) ≡ some requested)
            × MayCall one_word own_tool (some student) requested))
invokable_run-MayCall_example =
    invokable_run-MayCall one_word user_seven own_tool (some student) "{}" cancelled_once
