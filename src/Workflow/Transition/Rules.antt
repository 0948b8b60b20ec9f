-- ===== src/Workflow/Transition/Rules.antt =====
-- Which transitions are ever activated, and by what.
use Prim.Native.String.{String}
use task_manager.Prelude.{
  ℕ, ◌≡◌, refl, ◌⊎◌, inl, inr, true, false, some, List, [], ◌∷◌, arith, Option-cases,
}
use task_manager.Status.{Status, succeeded, failed, terminated_after_time_out}
use task_manager.Workflow.Transition.{
  always, on_success, on_failure, on_timeout, on_exit_code, PythonValue, integer, negative,
  value_in, Transition, should_activate,
}

-- What an IntegerField reads as when it is not None.
abbrev pub IsInteger : PythonValue → Type 0
IsInteger v = ((n : ℕ) × (v ≡ integer n)) ⊎ ((n : ℕ) × (v ≡ negative n))

-- An integer is in no list of strings.
value_in_of_IsInteger :
    (v : PythonValue) (codes : List String) → IsInteger v → value_in v codes ≡ false
unfolding value_in
value_in_of_IsInteger v [] h = refl
value_in_of_IsInteger v (c ∷ cs) h = ground (arith, value_in_of_IsInteger v cs)

-- A transition with the rule type exit_code is never activated by a task execution that has an
-- exit code, whatever codes it lists and whatever the status: an integer is compared with strings.
pub should_activate-exit_code_never :
    (transition : Transition) (status : Status) (exit_code : PythonValue)
    → transition.rule_type ≡ on_exit_code
    → IsInteger exit_code
    → should_activate transition status exit_code ≡ some false
unfolding should_activate
should_activate-exit_code_never transition status exit_code rule h =
    elim (Option-cases transition.exit_codes) [
      | inl e ↦ ground arith
      | inr (codes, e) ↦ ground (arith, value_in_of_IsInteger exit_code codes h)
    ]

-- For each status, a transition that is activated by it has the rule type always or
-- exit_code, or the one rule type of success, failure and timeout that names that status.
pub should_activate-rule :
    (transition : Transition) (status : Status) (exit_code : PythonValue)
    → should_activate transition status exit_code ≡ some true
    → (transition.rule_type ≡ always)
      ⊎ (transition.rule_type ≡ on_exit_code)
      ⊎ ((transition.rule_type ≡ on_success) × (status ≡ succeeded))
      ⊎ ((transition.rule_type ≡ on_failure) × (status ≡ failed))
      ⊎ ((transition.rule_type ≡ on_timeout) × (status ≡ terminated_after_time_out))
unfolding should_activate
should_activate-rule transition status exit_code h = ground arith
