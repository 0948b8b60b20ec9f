-- ===== src/Environment.antt =====
-- server/processes/models/task_execution.py: the environment variables with which a task execution
-- is started. A dictionary is its list of entries in order of insertion. How Python writes a number
-- or a JSON value as text is the record Python.
pub mod Overrides
pub mod Settings
use Prim.Native.String.{String}
use text.Mathlib.Text.{◌==◌}
use task_manager.Prelude.{
  ℕ, Bool, true, false, not, ◌&&◌, Option, none, some, List, [], ◌∷◌, ◌++◌, ltb, if◌then◌else◌,
  is_some, is_truthy, first_some, or_else,
}
use task_manager.Merge.{Json, null, boolean}

pub record Python : Type 0 where
  -- `str` of an integer, of a probability, and of a JSON value
  pub str_int : ℕ → String
  pub str_float : ℕ → String
  pub str_json : Json → String
  -- `json.dumps` of a JSON value, where None is `null`
  pub dumps : Option Json → String

abbrev pub Env : Type 0
Env = List (String × String)

-- `env.get(k)`
unfoldable pub lookup : String → Env → Option String
lookup k [] = none
lookup k ((j, v) ∷ env) = if j == k then some v else lookup k env

-- `env[k] = v`: the entry keeps its place, a new one goes to the end
unfoldable pub set : String → String → Env → Env
set k v [] = (k, v) ∷ []
set k v ((j, w) ∷ env) = let rest = set k v env in if j == k then (j, v) ∷ env else (j, w) ∷ rest

-- `env.pop(k, None)`
unfoldable pub pop : String → Env → Env
pop k [] = []
pop k ((j, w) ∷ env) = let rest = pop k env in if j == k then rest else (j, w) ∷ rest

-- The fields of the Task.
pub record Task : Type 0 where
  pub name : String
  pub run_environment_name : Option String
  pub default_input_value : Option Json
  pub managed_probability : ℕ
  pub failure_report_probability : ℕ
  pub timeout_report_probability : ℕ
  pub heartbeat_interval_seconds : Option ℕ
  pub environment_variables_overrides : Option (List (String × Json))

-- The fields of the TaskExecution.
pub record Execution : Type 0 where
  pub uuid : String
  pub deployment : Option String
  pub input_value : Option Json
  pub wrapper_log_level : Option String
  pub process_command : String
  pub is_service : Option Bool
  pub process_max_retries : Option ℕ
  pub process_retry_delay_seconds : Option ℕ
  pub process_timeout_seconds : Option ℕ
  pub process_termination_grace_period_seconds : Option ℕ
  pub task_max_concurrency : Option ℕ
  pub max_conflicting_age_seconds : Option ℕ
  pub prevent_offline_execution : Option Bool
  pub api_key : String
  pub heartbeat_interval_seconds : Option ℕ
  pub api_request_timeout_seconds : Option ℕ
  pub api_retry_delay_seconds : Option ℕ
  pub api_resume_delay_seconds : Option ℕ
  pub api_error_timeout_seconds : Option ℕ
  pub api_task_execution_creation_error_timeout_seconds : Option ℕ
  pub api_task_execution_creation_conflict_timeout_seconds : Option ℕ
  pub api_task_execution_creation_conflict_retry_delay_seconds : Option ℕ
  pub api_final_update_timeout_seconds : Option ℕ
  pub api_max_retries_for_final_update : Option ℕ
  pub api_max_retries_for_process_creation_conflict : Option ℕ
  pub status_update_port : Option ℕ
  pub status_update_interval_seconds : Option ℕ
  pub status_update_message_max_bytes : Option ℕ
  pub environment_variables_overrides : Option (List (String × Json))

-- `if text:`
abbrev pub if_text : Option String → Option String
if_text none = none
if_text (some t) = if t == "" then none else some t

-- `coalesce(x, y)`
abbrev pub coalesce : Option Json → Option Json → Option Json
coalesce none y = y
coalesce (some x) y = some x

-- `str(b).upper()`
abbrev pub upper : Bool → String
upper true = "TRUE"
upper false = "FALSE"

abbrev pub if_given : Option Bool → Option String
if_given none = none
if_given (some b) = some (upper b)

module _ (py : Python) where
  -- `str(n)` under `if n is not None:`
  abbrev pub if_some : Option ℕ → Option String
  if_some none = none
  if_some (some n) = some (py.str_int n)

  -- `str(n)` under `if n:`
  abbrev pub if_truthy : Option ℕ → Option String
  if_truthy none = none
  if_truthy (some n) = if ltb 0 n then some (py.str_int n) else none

  abbrev pub val_to_str : Option ℕ → String
  val_to_str none = "-1"
  val_to_str (some n) = py.str_int n

  -- `x or y` of two optional numbers
  abbrev pub interval_or : Option ℕ → Option ℕ → Option ℕ
  interval_or x y = if is_truthy x then x else y

  -- The variables of the wrapper in the order in which they are set, if they are.
  abbrev pub wrapper_vars : Task → Execution → List (String × Option String)
  wrapper_vars task x =
      ("PROC_WRAPPER_TASK_EXECUTION_UUID", some x.uuid)
      ∷ ("PROC_WRAPPER_TASK_NAME", some task.name)
      ∷ (
        "PROC_WRAPPER_INPUT_VALUE",
        some (py.dumps (coalesce x.input_value task.default_input_value)),
      )
      ∷ ("PROC_WRAPPER_MANAGED_PROBABILITY", some (py.str_float task.managed_probability))
      ∷ (
        "PROC_WRAPPER_FAILURE_REPORT_PROBABILITY",
        some (py.str_float task.failure_report_probability),
      )
      ∷ (
        "PROC_WRAPPER_TIMEOUT_REPORT_PROBABILITY",
        some (py.str_float task.timeout_report_probability),
      )
      ∷ (
        "PROC_WRAPPER_DEPLOYMENT",
        if_text (first_some (if_text x.deployment) task.run_environment_name),
      )
      ∷ ("PROC_WRAPPER_LOG_LEVEL", if_text x.wrapper_log_level)
      ∷ ("PROC_WRAPPER_TASK_COMMAND", if_text (some x.process_command))
      ∷ ("PROC_WRAPPER_TASK_IS_SERVICE", if_given x.is_service)
      ∷ ("PROC_WRAPPER_PROCESS_MAX_RETRIES", if_some x.process_max_retries)
      ∷ ("PROC_WRAPPER_PROCESS_RETRY_DELAY_SECONDS", if_truthy x.process_retry_delay_seconds)
      ∷ ("PROC_WRAPPER_PROCESS_TIMEOUT_SECONDS", if_truthy x.process_timeout_seconds)
      ∷ (
        " PROC_WRAPPER_PROCESS_TERMINATION_GRACE_PERIOD_SECONDS",
        if_truthy x.process_termination_grace_period_seconds,
      )
      ∷ ("PROC_WRAPPER_TASK_MAX_CONCURRENCY", if_truthy x.task_max_concurrency)
      ∷ ("PROC_WRAPPER_MAX_CONFLICTING_AGE_SECONDS", if_truthy x.max_conflicting_age_seconds)
      ∷ ("PROC_WRAPPER_PREVENT_OFFLINE_EXECUTION", if_given x.prevent_offline_execution)
      ∷ ("PROC_WRAPPER_API_KEY", if_text (some x.api_key))
      ∷ (
        "PROC_WRAPPER_API_HEARTBEAT_INTERVAL_SECONDS",
        if_some (interval_or x.heartbeat_interval_seconds task.heartbeat_interval_seconds),
      )
      ∷ ("PROC_WRAPPER_API_REQUEST_TIMEOUT_SECONDS", if_some x.api_request_timeout_seconds)
      ∷ ("PROC_WRAPPER_API_RETRY_DELAY_SECONDS", if_some x.api_retry_delay_seconds)
      ∷ ("PROC_WRAPPER_API_RETRY_DELAY_SECONDS", if_some x.api_resume_delay_seconds)
      ∷ ("PROC_WRAPPER_API_ERROR_TIMEOUT_SECONDS", if_some x.api_error_timeout_seconds)
      ∷ (
        "PROC_WRAPPER_API_TASK_EXECUTION_CREATION_ERROR_TIMEOUT_SECONDS",
        if_some x.api_task_execution_creation_error_timeout_seconds,
      )
      ∷ (
        "PROC_WRAPPER_API_TASK_EXECUTION_CREATION_CONFLICT_TIMEOUT_SECONDS",
        if_some x.api_task_execution_creation_conflict_timeout_seconds,
      )
      ∷ (
        "PROC_WRAPPER_API_TASK_EXECUTION_CREATION_CONFLICT_RETRY_DELAY_SECONDS",
        if_some x.api_task_execution_creation_conflict_retry_delay_seconds,
      )
      ∷ (
        "PROC_WRAPPER_API_FINAL_UPDATE_TIMEOUT_SECONDS",
        if_some x.api_final_update_timeout_seconds,
      )
      ∷ ("PROC_WRAPPER_API_RETRIES_FOR_FINAL_UPDATE", if_some x.api_max_retries_for_final_update)
      ∷ (
        "PROC_WRAPPER_API_RETRIES_FOR_PROCESS_CREATION_CONFLICT",
        if_some x.api_max_retries_for_process_creation_conflict,
      )
      ∷ ("PROC_WRAPPER_STATUS_UPDATE_PORT", some (val_to_str x.status_update_port))
      ∷ (
        "PROC_WRAPPER_ENABLE_STATUS_UPDATE_LISTENER",
        some (upper (is_truthy x.status_update_port)),
      )
      ∷ (
        "PROC_WRAPPER_STATUS_UPDATE_INTERVAL_SECONDS",
        some (val_to_str x.status_update_interval_seconds),
      )
      ∷ (
        "PROC_WRAPPER_STATUS_UPDATE_MESSAGE_MAX_BYTES",
        some (val_to_str x.status_update_message_max_bytes),
      )
      ∷ ("PROC_WRAPPER_PROCESS_IS_SERVICE", if_given x.is_service)
      ∷ ("PROC_WRAPPER_PROCESS_MAX_CONCURRENCY", if_truthy x.task_max_concurrency)
      ∷ []

  -- What an override does to a variable: None removes it.
  abbrev pub override_text : Json → Option String
  override_text null = none
  override_text (boolean b) = some (upper b)
  override_text v = some (py.str_json v)

abbrev pub set_some : String → Option String → Env → Env
set_some k none env = env
set_some k (some v) env = set k v env

unfoldable pub set_all : List (String × Option String) → Env → Env
unfolding set
set_all [] env = env
set_all ((k, v) ∷ vs) env = set_all vs (set_some k v env)

abbrev pub change : String → Option String → Env → Env
change k none env = pop k env
change k (some v) env = set k v env

-- The loop over `overrides.items()`.
unfoldable pub apply_overrides : Python → List (String × Json) → Env → Env
unfolding set pop
apply_overrides py [] env = env
apply_overrides py ((k, v) ∷ vs) env = apply_overrides py vs (change k (override_text py v) env)

-- make_environment
unfoldable pub make_environment : Python → Task → Execution → Bool → Bool → Env
unfolding set_all apply_overrides
make_environment py task x include_wrapper_vars include_app_vars =
    let env = if include_wrapper_vars then set_all (wrapper_vars py task x) [] else [] in
    if include_app_vars
    then apply_overrides py (or_else x.environment_variables_overrides [])
        (apply_overrides py (or_else task.environment_variables_overrides []) env)
    else env
