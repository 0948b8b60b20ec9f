-- ===== src/Lib.antt =====
-- The task manager's server runs tasks and workflows of tasks, takes their reports, checks on them
-- and notifies people. This library models the server's own logic, which stands below
-- server/processes, as functions on records of the columns that it reads and writes, and proves
-- what the functions do.
--
-- Status (models/execution.py and models/task_execution.py): the statuses of an execution, and the
-- sets of statuses that every other part tests for.
--
-- Workflow (models/workflow_execution.py, workflow_task_instance.py,
-- workflow_task_instance_execution.py, workflow_transition.py, workflow_transition_evaluation.py
-- and services/workflow_execution_checker.py): Workflow/Types and Workflow/Store are the rows,
-- Workflow/Transition is should_activate, Workflow/Completion is compute_updated_status. The
-- methods that change rows are actions of a small monad, Workflow/Action, over the object `self`,
-- its loaded copy and the tables; an action returns or raises, and keeps its changes when it
-- raises. Workflow/Rows has the queries and single updates, Workflow/Saving the saves with the two
-- signal handlers, the stopping of task executions, check_if_complete and the start of a task
-- instance, Workflow/Engine what follows a finished task execution, and Workflow/Lifecycle
-- starting, retrying, restarting and timing out. Methods that call each other in a circle are
-- bounded by what the interpreter's recursion limit leaves: a call at depth 0 raises
-- RecursionError, as Python's does, and it is caught where the code catches it. The launch of a
-- task execution, whether one that is stopped can be saved, and networkx's depth-first search are
-- parameters of Workflow/Rows.Env. Workflow/Keeping and Workflow/Lifecycle/Keeping show that each
-- method keeps a property of the tables that its single updates keep; Workflow/Latest,
-- Workflow/Containment, Workflow/Invalidate and Workflow/Completion/Verdict hold the theorems.
--
-- Checker (services/task_execution_checker.py): the check of one task execution gives its new row,
-- and the saves and notifications in order.
--
-- StatusEvents (models/execution.py and models/execution_status_change_event.py): the event that
-- is made when an execution ends, its postponement, and what later executions make of it.
--
-- PostponedChecker (services/postponed_event_checker.py): the check for events whose postponement
-- has passed.
--
-- Schedules (services/schedule_checker.py, with queries of models/schedulable.py, models/task.py
-- and models/workflow.py): the time range in which an execution is expected, and the event for
-- executions that are missing. The calendar arithmetic of crontab and dateutil is a parameter,
-- Schedules.Calendar. Schedules/Resolution (models/execution.py) is what an execution that starts
-- does to these events.
--
-- Hooks (models/task_execution.py): the signal handlers of a saved task execution, as a list of
-- their effects on the other parts; which of them raise an exception is an argument, and one that
-- is not caught ends the handler.
--
-- Purge (purge_history of models/task.py and models/workflow.py): the removal of old executions
-- beyond a group's limit. Throttle (throttling/subscription_rate_throttle.py and
-- models/group_info.py): the API credits of a month.
--
-- Reporting (serializers/task_execution_serializer.py): a client's report creates or updates a
-- task execution; Merge (common/utils.py) is the merge of JSON documents that an update uses.
-- Whether the user has developer access is an argument, which Access/Reports computes.
--
-- Limits (common/usage_limits.py, models/subscription.py, models/subscription_plan.py): the usage
-- limits of a group. RateLimit (models/notification_delivery_method.py): the tiers that bound the
-- number of notifications; whether a delivery succeeds is an argument. Notifications
-- (models/notification_profile.py and models/schedulable.py) sends an event by the profiles of a
-- Task or Workflow through these methods, several profiles possibly through the same one; whether
-- the rows of notifications can be saved is an argument too.
--
-- Access (common/request_helpers.py, permissions.py, models/user_group_access_level.py): the
-- access level that a request has in a group, from the user's levels and the API key, and the
-- object permission. Access/Settings is the look-up of groups and run environments by what a
-- request names (also models/uuid_model.py), and Access/Authorize the group and run environment
-- with which a setting is saved (serializers/group_setting_serializer_mixin.py).
-- Access/Entitlement, Access/Disclosure, Access/Reports and Access/Authorize/Confinement hold the
-- theorems.
--
-- Tasks (models/task.py, execution_methods/execution_method.py): the setup and teardown of a
-- Task's schedule and service when it is saved. The execution method is a record of functions, and
-- its calls are recorded in order; what they do in AWS is not modelled. Tasks/Agreement says from
-- the calls whether the schedule exists. Tasks/Handlers is the synchronization as a whole with the
-- signal handlers, Tasks/Defaults what the base class decides, and Tasks/Validation
-- (serializers/task_serializer.py) the fields that a request may set; Tasks/Updates composes
-- validation and synchronization.
--
-- Environment (models/task_execution.py): the environment variables of an execution. Services
-- (services/service_concurrency_checker.py): the check for services with too few instances, where
-- the third-party dictionary of intervals is a parameter that is assumed to count the intervals
-- that cover an instant. Workflow/Clone (models/workflow.py) is the copy of a workflow, within the
-- group's limit. Workflow/Timing (models/workflow.py) is the setup and teardown of the rule of
-- Amazon EventBridge that starts a workflow on its schedule: the requests are recorded, their
-- answers are a parameter, Workflow/Timing/Columns has the rows, and Workflow/Timing/Requests says
-- what the requests do to the rule. The API key for the target of the rule is left out.
--
-- Prelude has the shared names, Boolean tests and list functions. An instant is a natural number
-- of microseconds, and a duration that the code computes between two instants stops at 0 where the
-- code's would be negative, which no comparison of the code tells apart. Samples applies the
-- theorems to a small workflow and to sample rows.
--
-- Not modelled: the execution methods for AWS, the delivery of notifications, the views, the other
-- fields of the serializers, migrations and settings, and the web client.
pub mod Prelude
pub mod Status
pub mod Workflow
pub mod Checker
pub mod Limits
pub mod RateLimit
pub mod StatusEvents
pub mod Merge
pub mod Reporting
pub mod Schedules
pub mod Purge
pub mod Throttle
pub mod Hooks
pub mod PostponedChecker
pub mod Access
pub mod Notifications
pub mod Services
pub mod Tasks
pub mod Environment
pub mod Samples
