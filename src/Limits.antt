-- ===== src/Limits.antt =====
-- server/processes/common/usage_limits.py, models/subscription_plan.py and models/subscription.py:
-- what a group may use, from the plans that it subscribes to. None is no limit.
pub mod Totals
use task_manager.Prelude.{
  ℕ, ◌+◌, Bool, true, false, ◌&&◌, ◌||◌, not, Option, none, some, List, [], ◌∷◌, leb, ◌==◌,
  if◌then◌else◌, Time, select,
}

pub add_limits : Option ℕ → Option ℕ → Option ℕ
add_limits none y = none
add_limits (some m) none = none
add_limits (some m) (some n) = some (m + n)

pub record UsageLimits : Type 0 where
  pub max_users : Option ℕ
  pub max_api_keys : Option ℕ
  pub max_api_credits_per_month : Option ℕ
  pub max_tasks : Option ℕ
  pub max_task_execution_concurrency : Option ℕ
  pub max_task_execution_history_items : Option ℕ
  pub max_workflows : Option ℕ
  pub max_workflow_execution_concurrency : Option ℕ
  pub max_workflow_task_instances : Option ℕ
  pub max_workflow_execution_history_items : Option ℕ
  pub max_alerts_per_day : Option ℕ
  pub max_events : Option ℕ
  pub max_notifications : Option ℕ

-- UsageLimits.combine
pub combine : UsageLimits → UsageLimits → UsageLimits
unfolding add_limits
combine x y = record {
  max_users = add_limits x.max_users y.max_users;
  max_api_keys = add_limits x.max_api_keys y.max_api_keys;
  max_api_credits_per_month = add_limits x.max_api_credits_per_month y.max_api_credits_per_month;
  max_tasks = add_limits x.max_tasks y.max_tasks;
  max_task_execution_concurrency =
      add_limits x.max_task_execution_concurrency y.max_task_execution_concurrency;
  max_task_execution_history_items =
      add_limits x.max_task_execution_history_items y.max_task_execution_history_items;
  max_workflows = add_limits x.max_workflows y.max_workflows;
  max_workflow_execution_concurrency =
      add_limits x.max_workflow_execution_concurrency y.max_workflow_execution_concurrency;
  max_workflow_task_instances =
      add_limits x.max_workflow_task_instances y.max_workflow_task_instances;
  max_workflow_execution_history_items =
      add_limits x.max_workflow_execution_history_items y.max_workflow_execution_history_items;
  max_alerts_per_day = add_limits x.max_alerts_per_day y.max_alerts_per_day;
  max_events = add_limits x.max_events y.max_events;
  max_notifications = add_limits x.max_notifications y.max_notifications;
}

-- UsageLimits.default_limits
abbrev pub default_limits : UsageLimits
default_limits = record {
  max_users = some 50;
  max_api_keys = some 25;
  max_api_credits_per_month = some 10000;
  max_tasks = some 2000;
  max_task_execution_concurrency = some 4;
  max_task_execution_history_items = some 1000;
  max_workflows = some 100;
  max_workflow_execution_concurrency = some 1;
  max_workflow_task_instances = some 200;
  max_workflow_execution_history_items = some 1000;
  max_alerts_per_day = some 1000;
  max_events = some 20000;
  max_notifications = some 20000;
}

-- A Subscription row with its plan's limits, if it has a plan.
pub record Subscription : Type 0 where
  pub group : Option ℕ
  pub plan : Option UsageLimits
  pub active : Bool
  pub start_at : Time
  pub end_at : Option Time

abbrev pub not_ended : Option Time → Time → Bool
not_ended none now = true
not_ended (some end_at) now = leb now end_at

abbrev pub same_group : Option ℕ → ℕ → Bool
same_group none group = false
same_group (some g) group = g == group

-- The filter of compute_usage_limits.
pub is_current : ℕ → Time → Subscription → Bool
is_current group now s =
    (same_group s.group group && s.active) && (leb s.start_at now && not_ended s.end_at now)

-- `usage_limits`, after one more subscription.
abbrev pub add_plan : Option UsageLimits → Option UsageLimits → Option UsageLimits
add_plan total none = total
add_plan none (some limits) = some limits
add_plan (some total) (some limits) = some (combine total limits)

-- The loop of compute_usage_limits.
pub sum_plans : Option UsageLimits → List Subscription → Option UsageLimits
sum_plans total [] = total
sum_plans total (s ∷ ss) = sum_plans (add_plan total s.plan) ss

abbrev pub or_default : Option UsageLimits → UsageLimits
or_default none = default_limits
or_default (some limits) = limits

-- Subscription.compute_usage_limits
pub compute_usage_limits : ℕ → Time → List Subscription → UsageLimits
unfolding sum_plans is_current combine
compute_usage_limits group now subscriptions =
    or_default (sum_plans none (select (is_current group now) subscriptions))
