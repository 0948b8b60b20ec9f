-- ===== src/Environment/Settings.antt =====
-- Two settings of an execution that do not reach the wrapper under their own names.
use Prim.Native.String.{String}
use task_manager.Prelude.{◌≡◌, refl, ◌∙◌, ℕ, true, false, none, some, [], first_some, ap}
use task_manager.Environment.{Python, lookup, Task, Execution, wrapper_vars, make_environment}
use task_manager.Environment.Overrides.{lookup-set_all, last_value}

lookup-wrapper :
    (py : Python) (task : Task) (x : Execution) (k : String)
    → lookup k (make_environment py task x true false)
      ≡ first_some (last_value k (wrapper_vars py task x)) none
unfolding make_environment lookup
lookup-wrapper py task x k = lookup-set_all k (wrapper_vars py task x) []

-- The variable of the wrapper for the grace period of a process's termination is never set.
pub make_environment-no_grace_period :
    (py : Python) (task : Task) (x : Execution)
    → lookup "PROC_WRAPPER_PROCESS_TERMINATION_GRACE_PERIOD_SECONDS"
        (make_environment py task x true false)
      ≡ none
make_environment-no_grace_period py task x =
    lookup-wrapper py task x "PROC_WRAPPER_PROCESS_TERMINATION_GRACE_PERIOD_SECONDS"

last_value-resume_delay :
    (py : Python) (task : Task) (x : Execution) (n : ℕ)
    → x.api_resume_delay_seconds ≡ some n
    → last_value "PROC_WRAPPER_API_RETRY_DELAY_SECONDS" (wrapper_vars py task x)
      ≡ some (py.str_int n)
last_value-resume_delay py task x n h = rw h refl

-- An execution that has a delay for resuming requests of the API passes it on in place of its delay
-- for retrying them.
pub make_environment-resume_delay :
    (py : Python) (task : Task) (x : Execution) (n : ℕ)
    → x.api_resume_delay_seconds ≡ some n
    → lookup "PROC_WRAPPER_API_RETRY_DELAY_SECONDS" (make_environment py task x true false)
      ≡ some (py.str_int n)
make_environment-resume_delay py task x n h =
    lookup-wrapper py task x "PROC_WRAPPER_API_RETRY_DELAY_SECONDS"
    ∙ ap (λ o. first_some o none) (last_value-resume_delay py task x n h)
