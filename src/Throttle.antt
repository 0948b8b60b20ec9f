-- ===== src/Throttle.antt =====
-- server/processes/throttling/subscription_rate_throttle.py: the API credits that a group uses in
-- a month. Of an instant only the month counts; the group's limit is computed from its
-- subscriptions, and the throttle of a website's user is the framework's.
pub mod Credits
use task_manager.Prelude.{
  ℕ, suc, ◌+◌, Bool, true, false, not, ◌&&◌, ◌||◌, Option, none, some, ◌==◌, leb, if◌then◌else◌,
  or_else, Time,
}
use task_manager.Limits.{UsageLimits}

-- The calendar month of an instant, from 1 to 12.
pub record Moment : Type 0 where
  pub year : ℕ
  pub month : ℕ

pub record GroupInfo : Type 0 where
  pub used_current_month : ℕ
  pub used_previous_month : ℕ
  pub last_used_at : Option Moment

abbrev pub same_month : Moment → Moment → Bool
same_month t u = t.month == u.month && t.year == u.year

-- The month of `last` comes just before that of `now`.
abbrev pub is_previous_month : Moment → Moment → Bool
is_previous_month last now =
    last.year == now.year && last.month + 1 == now.month
    || last.year + 1 == now.year && (last.month == 12 && now.month == 1)

-- The credits counted before the request, and the group's record.
abbrev pub roll_over : Moment → GroupInfo → ℕ × GroupInfo
roll_over now g =
    let last = or_else g.last_used_at now in
    if same_month last now
    then (g.used_current_month, g)
    else if is_previous_month last now
    then (0, record g { used_previous_month = g.used_current_month })
    else (0, g)

abbrev pub is_throttled : Option ℕ → ℕ → Bool
is_throttled none credits = false
is_throttled (some most) credits = leb most credits

-- The branch for an API key: whether the request is allowed, and the saved record of the group.
unfoldable pub charge : Option ℕ → Moment → GroupInfo → Bool × GroupInfo
charge limit now g =
    let before = roll_over now g in
    if is_throttled limit before.0
    then (false, before.1)
    else (true, record before.1 { used_current_month = before.0 + 1; last_used_at = some now })

-- `GroupInfo(group=group)`
abbrev pub new_group_info : GroupInfo
new_group_info = record { used_current_month = 0; used_previous_month = 0; last_used_at = none }

-- What the request comes with.
pub data Auth : Type 0 where
  staff website : Auth
  api_key : Auth

-- allow_request; `default` is what the framework's throttle answers
unfoldable pub allow_request :
    Auth → Bool → UsageLimits → Moment → Option GroupInfo → Bool × Option GroupInfo
unfolding charge
allow_request staff default limits now o = (true, o)
allow_request website default limits now o = (default, o)
allow_request api_key default limits now o =
    let r = charge limits.max_api_credits_per_month now (or_else o new_group_info) in
    (r.0, some (r.1))
