-- ===== src/Workflow/Transition.antt =====
-- server/processes/models/workflow_transition.py: when a transition out of a finished task
-- instance is activated. Values are Python's: an integer is never equal to a string.
pub mod Rules
use Prim.Native.String.{String}
use text.Mathlib.Text.{◌==◌ as same_text}
use task_manager.Prelude.{
  ℕ, ◌≡◌, ◌≢◌, Bool, true, false, ◌||◌, Option, none, some, List, [], ◌∷◌, ◌==◌, arith,
}
use task_manager.Status.{Status, succeeded, failed, terminated_after_time_out, same_status}

-- RULE_TYPE_*
pub data RuleType : Type 0 where
  always on_success on_failure on_timeout on_exit_code threshold custom default : RuleType

-- What an `exit_code` or a member of `exit_codes` can be. `negative n` is -(n + 1).
pub data PythonValue : Type 0 where
  none_value : PythonValue
  integer negative : ℕ → PythonValue
  string : String → PythonValue

-- Python's `==` on these values.
abbrev pub same_value : PythonValue → PythonValue → Bool
same_value none_value none_value = true
same_value (integer m) (integer n) = m == n
same_value (negative m) (negative n) = m == n
same_value (string s) (string t) = same_text s t
same_value _ _ = false

-- `x in xs`, where the members are the strings of an ArrayField of CharFields.
unfoldable pub value_in : PythonValue → List String → Bool
value_in x [] = false
value_in x (s ∷ ss) = same_value x (string s) || value_in x ss

-- The fields of a WorkflowTransition that the engine reads.
pub record Transition : Type 0 where
  pub ident : ℕ
  pub from_workflow_task_instance : ℕ
  pub to_workflow_task_instance : ℕ
  pub rule_type : RuleType
  pub exit_codes : Option (List String)

abbrev exit_code_listed : Option (List String) → PythonValue → Bool
exit_code_listed none exit_code = false
exit_code_listed (some codes) exit_code = value_in exit_code codes

activate : RuleType → Option (List String) → Status → PythonValue → Option Bool
activate always codes status exit_code = some true
activate on_success codes status exit_code = some (same_status status succeeded)
activate on_failure codes status exit_code = some (same_status status failed)
activate on_timeout codes status exit_code = some (same_status status terminated_after_time_out)
activate on_exit_code codes status exit_code = some (exit_code_listed codes exit_code)
activate _ codes status exit_code = none

-- WorkflowTransition.should_activate; `none` is the APIException "Unsupported rule type".
unfoldable pub should_activate : Transition → Status → PythonValue → Option Bool
unfolding activate
should_activate transition status exit_code =
    activate transition.rule_type transition.exit_codes status exit_code
