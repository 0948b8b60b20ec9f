-- ===== src/RateLimit.antt =====
-- server/processes/models/notification_delivery_method.py: how many notifications a delivery method
-- sends, by tiers. The eight groups of columns with the suffixes _0 to _7 are a list of tiers.
pub mod Bounds
use task_manager.Prelude.{
  ℕ, zero, suc, ◌+◌, ◌-◌, Bool, true, false, ◌&&◌, ◌||◌, not, Option, none, some, List, [], ◌∷◌,
  ltb, leb, if◌then◌else◌, count_or_zero, Time, seconds,
}

pub record Tier : Type 0 where
  pub max_requests_per_period : Option ℕ
  pub request_period_seconds : Option ℕ
  pub max_severity : Option ℕ
  pub request_period_started_at : Option Time
  pub request_count_in_period : Option ℕ

pub record DeliveryMethod : Type 0 where
  pub enabled : Bool
  pub tiers : List Tier

-- `max_severity is not None and event.severity > max_severity`
abbrev pub above : Option ℕ → ℕ → Bool
above none severity = false
above (some highest) severity = ltb highest severity

-- `period_started_at is None or (now - period_started_at).total_seconds() > period_seconds`
abbrev pub expired : Option Time → ℕ → Time → Bool
expired none period now = true
expired (some started) period now = ltb (seconds period) (now - started)

-- The requests that count in the period of an instant.
abbrev pub count_at : Tier → ℕ → Time → ℕ
count_at t period now =
    if expired t.request_period_started_at period now
    then 0
    else count_or_zero t.request_count_in_period

abbrev pub reached : Tier → Option ℕ → Option ℕ → Time → Bool
reached t none period now = false
reached t (some most) none now = false
reached t (some most) (some period) now = leb most (count_at t period now)

-- One round of the loop of rated_limited_tier_index: the tier limits the event.
pub is_exhausted : ℕ → Time → Tier → Bool
is_exhausted severity now t =
    not (above t.max_severity severity)
    && reached t t.max_requests_per_period t.request_period_seconds now

pub limited_from : ℕ → ℕ → Time → List Tier → Option ℕ
unfolding is_exhausted
limited_from index severity now [] = none
limited_from index severity now (t ∷ ts) =
    let rest = limited_from (index + 1) severity now ts in
    if is_exhausted severity now t then some index else rest

-- rate_limited_tier_index
pub rate_limited_tier_index : DeliveryMethod → ℕ → Time → Option ℕ
unfolding limited_from
rate_limited_tier_index method severity now = limited_from 0 severity now method.tiers

abbrev pub count_request : Tier → Option ℕ → Option ℕ → Time → Tier
count_request t none period now = t
count_request t (some most) none now = t
count_request t (some most) (some period) now =
    if expired t.request_period_started_at period now
    then record t { request_period_started_at = some now; request_count_in_period = some 1 }
    else record t { request_count_in_period = some (count_or_zero t.request_count_in_period + 1) }

-- One round of the loop of increment_rate_limit_counters.
pub increment_tier : ℕ → Time → Tier → Tier
increment_tier severity now t =
    if above t.max_severity severity
    then t
    else count_request t t.max_requests_per_period t.request_period_seconds now

pub increment_tiers : ℕ → Time → List Tier → List Tier
unfolding increment_tier
increment_tiers severity now [] = []
increment_tiers severity now (t ∷ ts) =
    increment_tier severity now t ∷ increment_tiers severity now ts

-- increment_rate_limit_counters, which saves the columns that it sets
pub increment_rate_limit_counters : ℕ → Time → DeliveryMethod → DeliveryMethod
unfolding increment_tiers
increment_rate_limit_counters severity now method = record method {
  tiers = increment_tiers severity now method.tiers;
}

-- What send_if_not_rate_limited returns or raises.
pub data Sent : Type 0 where
  disabled delivered delivery_failed : Sent
  rate_limited : ℕ → Sent

-- What follows the search for a tier that limits the event; `delivers` says whether `send` returns.
pub attempt : Option ℕ → Bool → ℕ → Time → DeliveryMethod → Sent × DeliveryMethod
unfolding increment_rate_limit_counters
attempt (some index) delivers severity counted method = (rate_limited index, method)
attempt none true severity counted method =
    (delivered, increment_rate_limit_counters severity counted method)
attempt none false severity counted method = (delivery_failed, method)

-- send_if_not_rate_limited. The tiers are tested at one instant and counted at a later one.
pub send_if_not_rate_limited : Bool → ℕ → Time → Time → DeliveryMethod → Sent × DeliveryMethod
unfolding rate_limited_tier_index attempt
send_if_not_rate_limited delivers severity tested counted method =
    if not method.enabled
    then (disabled, method)
    else attempt (rate_limited_tier_index method severity tested) delivers severity counted method
