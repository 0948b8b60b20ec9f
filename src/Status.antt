-- ===== src/Status.antt =====
-- server/processes/models/execution.py and task_execution.py: the statuses of an execution and
-- the sets of statuses that the program tests for.
use task_manager.Prelude.{ℕ, ◌≡◌, Bool, true, false, ◌||◌, List, [], ◌∷◌, ◌++◌, ◌==◌, arith}

-- Execution.Status
pub data Status : Type 0 where
  running succeeded failed terminated_after_time_out marked_done : Status
  exited_after_marked_done stopping stopped abandoned manually_started aborted : Status

-- The value of each member of the IntEnum, as stored in the database.
abbrev pub value : Status → ℕ
value running = 0
value succeeded = 1
value failed = 2
value terminated_after_time_out = 3
value marked_done = 4
value exited_after_marked_done = 5
value stopping = 6
value stopped = 7
value abandoned = 8
value manually_started = 9
value aborted = 10

-- `a == b` on members of the IntEnum.
abbrev pub same_status : Status → Status → Bool
same_status a b = value a == value b

-- `s in [...]`
abbrev pub status_in : Status → List Status → Bool
status_in s [] = false
status_in s (t ∷ ts) = same_status s t || status_in s ts

abbrev pub in_progress_statuses : List Status
in_progress_statuses = manually_started ∷ running ∷ []

abbrev pub unsuccessful_statuses : List Status
unsuccessful_statuses =
    failed ∷ terminated_after_time_out ∷ marked_done ∷ exited_after_marked_done ∷ stopping ∷ stopped
    ∷ abandoned ∷ aborted ∷ []

abbrev pub completed_statuses : List Status
completed_statuses = succeeded ∷ unsuccessful_statuses

abbrev pub awaiting_update_statuses : List Status
awaiting_update_statuses = in_progress_statuses ++ stopping ∷ []

abbrev pub is_in_progress : Status → Bool
is_in_progress s = status_in s in_progress_statuses

abbrev pub is_successful : Status → Bool
is_successful s = same_status s succeeded

abbrev pub is_unsuccessful : Status → Bool
is_unsuccessful s = status_in s unsuccessful_statuses

-- TaskExecution.StopReason
pub data StopReason : Type 0 where
  manual max_execution_time_exceeded missing_heartbeat failed_to_start : StopReason
  workflow_execution_stopped workflow_execution_retried workflow_execution_timed_out : StopReason

abbrev pub stop_value : StopReason → ℕ
stop_value manual = 0
stop_value max_execution_time_exceeded = 1
stop_value missing_heartbeat = 2
stop_value failed_to_start = 3
stop_value workflow_execution_stopped = 100
stop_value workflow_execution_retried = 101
stop_value workflow_execution_timed_out = 102

abbrev pub same_reason : StopReason → StopReason → Bool
same_reason a b = stop_value a == stop_value b

pub same_status_refl : (s : Status) → same_status s s ≡ true
same_status_refl s = ground arith

pub eq_of_same_status : (a b : Status) → same_status a b ≡ true → a ≡ b
eq_of_same_status a b h = ground arith
