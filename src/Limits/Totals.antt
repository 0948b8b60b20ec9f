-- ===== src/Limits/Totals.antt =====
-- Each limit of a group is the total over its current plans, and no limit if one plan has none.
use task_manager.Prelude.{
  ℕ, ◌≡◌, refl, ap, sym, ◌∙◌, inl, inr, Option-cases, Option, none, some, List, [], ◌∷◌, arith,
  select, Time,
}
use task_manager.Limits.{
  add_limits, UsageLimits, combine, default_limits, Subscription, is_current, sum_plans, or_default,
  compute_usage_limits,
}

pub data Limit : Type 0 where
  users api_keys api_credits_per_month tasks task_execution_concurrency : Limit
  task_execution_history_items workflows workflow_execution_concurrency : Limit
  workflow_task_instances workflow_execution_history_items alerts_per_day events : Limit
  notifications : Limit

abbrev pub limit : Limit → UsageLimits → Option ℕ
limit users u = u.max_users
limit api_keys u = u.max_api_keys
limit api_credits_per_month u = u.max_api_credits_per_month
limit tasks u = u.max_tasks
limit task_execution_concurrency u = u.max_task_execution_concurrency
limit task_execution_history_items u = u.max_task_execution_history_items
limit workflows u = u.max_workflows
limit workflow_execution_concurrency u = u.max_workflow_execution_concurrency
limit workflow_task_instances u = u.max_workflow_task_instances
limit workflow_execution_history_items u = u.max_workflow_execution_history_items
limit alerts_per_day u = u.max_alerts_per_day
limit events u = u.max_events
limit notifications u = u.max_notifications

limit-combine :
    (l : Limit) (x y : UsageLimits) → limit l (combine x y) ≡ add_limits (limit l x) (limit l y)
unfolding combine
limit-combine users x y = refl
limit-combine api_keys x y = refl
limit-combine _ x y = refl

-- The plans of the group's current subscriptions.
abbrev pub plans_of : Option UsageLimits → List UsageLimits → List UsageLimits
plans_of none rest = rest
plans_of (some p) rest = p ∷ rest

pub plans : List Subscription → List UsageLimits
plans [] = []
plans (s ∷ ss) = plans_of s.plan (plans ss)

-- A total of limits: absent if one of them is.
pub total : Limit → List UsageLimits → Option ℕ
unfolding add_limits
total l [] = some 0
total l (p ∷ ps) = add_limits (limit l p) (total l ps)

add_limits_assoc :
    (x y z : Option ℕ) → add_limits (add_limits x y) z ≡ add_limits x (add_limits y z)
unfolding add_limits
add_limits_assoc x y z = ground arith

add_limits_zero : (x : Option ℕ) → add_limits x (some 0) ≡ x
unfolding add_limits
add_limits_zero x = ground arith

-- The loop from a total that it has already.
sum_from :
    (l : Limit) (u : UsageLimits) (ss : List Subscription)
    → limit l (or_default (sum_plans (some u) ss)) ≡ add_limits (limit l u) (total l (plans ss))
unfolding sum_plans plans total
sum_from l u [] = sym (add_limits_zero (limit l u))
sum_from l u (s ∷ ss) = elim (Option-cases s.plan) [
  | inl e ↦ rw (e, plans_of) (sum_from l u ss)
  | inr (p, e) ↦
      rw (e, plans_of)
        (sum_from l (combine u p) ss
          ∙ ap (λ x. add_limits x (total l (plans ss))) (limit-combine l u p)
          ∙ add_limits_assoc (limit l u) (limit l p) (total l (plans ss)))
]

-- A limit with no plan at all is the default one.
pub limit_or_default : Limit → List UsageLimits → Option ℕ
unfolding total
limit_or_default l [] = limit l default_limits
limit_or_default l (p ∷ ps) = total l (p ∷ ps)

sum_none :
    (l : Limit) (ss : List Subscription)
    → limit l (or_default (sum_plans none ss)) ≡ limit_or_default l (plans ss)
unfolding sum_plans plans limit_or_default
sum_none l [] = refl
sum_none l (s ∷ ss) = elim (Option-cases s.plan) [
  | inl e ↦ rw (e, plans_of) (sum_none l ss)
  | inr (p, e) ↦ rw (e, plans_of) (sum_from l p ss)
]

-- Each of the thirteen limits that compute_usage_limits gives a group is the sum of the limits of
-- the plans of its current subscriptions, is absent if one of these plans has none, and is the
-- default if there is no such plan.
pub compute_usage_limits-limit :
    (l : Limit) (group : ℕ) (now : Time) (subscriptions : List Subscription)
    → limit l (compute_usage_limits group now subscriptions)
      ≡ limit_or_default l (plans (select (is_current group now) subscriptions))
unfolding compute_usage_limits
compute_usage_limits-limit l group now subscriptions =
    sum_none l (select (is_current group now) subscriptions)
