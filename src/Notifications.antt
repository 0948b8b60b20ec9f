-- ===== src/Notifications.antt =====
-- server/processes/models/notification_profile.py and schedulable.py: the notifications that are
-- sent for an event. What the delivery of one does, and when, is a parameter; the rows of delivery
-- methods are a list with their ids.
pub mod Limits
pub mod Rounds
pub mod Complete
use task_manager.Prelude.{
  ℕ, zero, suc, ◌+◌, Bool, true, false, not, Option, none, some, List, [], ◌∷◌, ◌++◌, ◌==◌,
  if◌then◌else◌, is_some, select, length, Time,
}
use task_manager.RateLimit.{
  Tier, DeliveryMethod, Sent, disabled, delivered, delivery_failed, rate_limited,
  send_if_not_rate_limited,
}

-- NotificationProfile, with the ids of its delivery methods
pub record Profile : Type 0 where
  pub ident : ℕ
  pub enabled : Bool
  pub notification_delivery_methods : List ℕ

-- NotificationSendStatus
pub data SendStatus : Type 0 where
  sending succeeded failed timeout limited skipped : SendStatus

-- Notification
pub record Notification : Type 0 where
  pub profile : ℕ
  pub delivery_method : ℕ
  pub send_status : SendStatus
  pub rate_limit_tier_index : Option ℕ
  pub rate_limit_max_requests_per_period : Option ℕ
  pub rate_limit_request_period_seconds : Option ℕ
  pub rate_limit_max_severity : Option ℕ

-- The rows of delivery methods.
abbrev pub Methods : Type 0
Methods = List (ℕ × DeliveryMethod)

unfoldable pub fetch : ℕ → Methods → Option DeliveryMethod
fetch k [] = none
fetch k ((i, m) ∷ ms) = if i == k then some m else fetch k ms

unfoldable pub store : ℕ → DeliveryMethod → Methods → Methods
store k m [] = []
store k m ((i, n) ∷ ms) = let rest = store k m ms in if i == k then (i, m) ∷ rest else (i, n) ∷ rest

-- What happens when a profile's notification is sent by a method: whether it can be saved at first
-- and at the end, or an exception is raised, whether it is delivered, and the instants at which the
-- tiers are tested and counted.
pub record Delivery : Type 0 where
  pub is_created : Bool
  pub is_updated : Bool
  pub delivers : Bool
  pub tested : Time
  pub counted : Time

unfoldable pub tier_at : ℕ → List Tier → Option Tier
tier_at n [] = none
tier_at zero (t ∷ ts) = some t
tier_at (suc n) (t ∷ ts) = tier_at n ts

-- `Notification(...)` with its initial status
abbrev pub new_notification : ℕ → ℕ → Bool → Notification
new_notification profile method enabled = record {
  profile = profile;
  delivery_method = method;
  send_status = if enabled then sending else skipped;
  rate_limit_tier_index = none;
  rate_limit_max_requests_per_period = none;
  rate_limit_request_period_seconds = none;
  rate_limit_max_severity = none;
}

abbrev pub with_tier : Notification → ℕ → Option Tier → Notification
with_tier n index none = record n { send_status = limited; rate_limit_tier_index = some index }
with_tier n index (some t) = record n {
  send_status = limited;
  rate_limit_tier_index = some index;
  rate_limit_max_requests_per_period = t.max_requests_per_period;
  rate_limit_request_period_seconds = t.request_period_seconds;
  rate_limit_max_severity = t.max_severity;
}

-- The notification after what send_if_not_rate_limited returned or raised.
abbrev pub completed : Notification → DeliveryMethod → Sent → Notification
completed n m disabled = record n { send_status = succeeded }
completed n m delivered = record n { send_status = succeeded }
completed n m delivery_failed = record n { send_status = failed }
completed n m (rate_limited index) = with_tier n index (tier_at index m.tiers)

-- One round of the loop of `send`: the notification as it is saved last, if it is saved, the method's
-- row, and whether no exception is raised.
pub record Round : Type 0 where
  pub notification : Option Notification
  pub method_row : DeliveryMethod
  pub returns : Bool

unfoldable pub send_by : Delivery → ℕ → ℕ → ℕ → DeliveryMethod → Round
unfolding tier_at
send_by d severity profile method m =
    let sent = send_if_not_rate_limited d.delivers severity d.tested d.counted m in
    let initial = new_notification profile method m.enabled in
    if not d.is_created
    then record { notification = none; method_row = m; returns = false }
    else if not m.enabled
    then record { notification = some initial; method_row = m; returns = true }
    else if not d.is_updated
    then record { notification = some initial; method_row = sent.1; returns = false }
    else record {
      notification = some (completed initial m (sent.0));
      method_row = sent.1;
      returns = true;
    }

-- The notifications so far, and the rows of methods.
abbrev pub Log : Type 0
Log = List Notification × Methods

abbrev pub with_notification : Option Notification → List Notification → List Notification
with_notification none ns = ns
with_notification (some n) ns = ns ++ (n ∷ [])

-- The log, and whether no exception has been raised.
pub record Progress : Type 0 where
  pub log : Log
  pub goes_on : Bool

abbrev pub progress : Log → Progress
progress log = record { log = log; goes_on = true }

abbrev pub add : ℕ → Round → Log → Progress
add method r log = record {
  log = (with_notification r.notification (log.0), store method r.method_row (log.1));
  goes_on = r.returns;
}

abbrev pub send_round : Delivery → ℕ → ℕ → ℕ → Option DeliveryMethod → Log → Progress
send_round d severity profile method none log = progress log
send_round d severity profile method (some m) log =
    add method (send_by d severity profile method m) log

-- The loop over the profile's delivery methods, which an exception ends.
unfoldable pub send_all : (ℕ → Delivery) → ℕ → ℕ → List ℕ → Log → Progress
unfolding fetch store send_by
send_all d severity profile [] log = progress log
send_all d severity profile (k ∷ ks) log =
    let r = send_round (d k) severity profile k (fetch k (log.1)) log in
    let rest = send_all d severity profile ks r.log in if r.goes_on then rest else r

-- NotificationProfile.send of an event with a severity
unfoldable pub send : (ℕ → Delivery) → ℕ → Profile → Log → Progress
unfolding send_all
send d severity p log =
    if not p.enabled
    then progress log
    else send_all d severity p.ident p.notification_delivery_methods log

-- The profiles by which an event is sent: the enabled ones, or those of the run environment.
abbrev pub is_empty {ℓ} : {A : Type ℓ} → List A → Bool
is_empty [] = true
is_empty (x ∷ xs) = false

unfoldable pub chosen_profiles : List Profile → Option (List Profile) → List Profile
chosen_profiles own environment =
    let enabled = select (λ (p : Profile). p.enabled) own in
    elim environment [
      | none ↦ enabled
      | some profiles ↦
          if is_empty enabled then select (λ (p : Profile). p.enabled) profiles else enabled
    ]

-- The number of profiles by which the event was sent, and the log.
pub record Tally : Type 0 where
  pub count : ℕ
  pub final : Log

-- The loop over the profiles; a profile whose sending raises an exception is not counted.
unfoldable pub send_by_profiles : (ℕ → ℕ → Delivery) → ℕ → List Profile → Log → Tally
unfolding send
send_by_profiles d severity [] log = record { count = 0; final = log }
send_by_profiles d severity (p ∷ ps) log =
    let r = send (d p.ident) severity p log in
    let rest = send_by_profiles d severity ps r.log in
    record { count = (if r.goes_on then 1 else 0) + rest.count; final = rest.final }

-- send_event_notifications: the number of profiles that it returns, the notifications, and the rows
-- of methods
unfoldable pub send_event_notifications :
    (ℕ → ℕ → Delivery)
    → ℕ
    → List Profile
    → Option (List Profile)
    → Methods
    → ℕ × List Notification × Methods
unfolding chosen_profiles send_by_profiles
send_event_notifications d severity own environment methods =
    let tally = send_by_profiles d severity (chosen_profiles own environment) ([], methods) in
    (tally.count, tally.final.0, tally.final.1)
