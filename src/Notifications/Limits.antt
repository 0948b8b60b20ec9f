-- ===== src/Notifications/Limits.antt =====
-- Notifications for an event respect the limits of every delivery method.
use task_manager.Prelude.{
  ℕ, ◌≤◌, Bool, true, false, not, if◌then◌else◌, Option, none, some, List, [], ◌∷◌, All, ◌==◌,
  Bool-cases, inl, inr,
}
use task_manager.RateLimit.{DeliveryMethod}
use task_manager.RateLimit.Bounds.{WithinLimit, send_if_not_rate_limited-WithinLimit}
use task_manager.Notifications.{
  Profile, Methods, fetch, store, Delivery, Round, send_by, Log, send_round, send_all, send,
  chosen_profiles, send_by_profiles, send_event_notifications,
}

-- No tier of a method counts more requests than its limit.
abbrev pub MethodWithin : ℕ × DeliveryMethod → Type 0
MethodWithin r = All WithinLimit r.1.tiers

FetchedWithin : Option DeliveryMethod → Type 0
FetchedWithin none = Unit
FetchedWithin (some m) = All WithinLimit m.tiers

fetch-within : (k : ℕ) (ms : Methods) → All MethodWithin ms → FetchedWithin (fetch k ms)
unfolding fetch FetchedWithin
fetch-within k [] h = tt
fetch-within k ((i, m) ∷ ms) (h, hs) = elim (Bool-cases (i == k)) [
  | inl t ↦ rw t h
  | inr f ↦ rw f (fetch-within k ms hs)
]

store-within :
    (k : ℕ) (m : DeliveryMethod) (ms : Methods)
    → All WithinLimit m.tiers
    → All MethodWithin ms
    → All MethodWithin (store k m ms)
unfolding store
store-within k m [] h w = tt
store-within k m ((i, n) ∷ ms) h (w, ws) = elim (Bool-cases (i == k)) [
  | inl t ↦ rw t (h, store-within k m ms h ws)
  | inr f ↦ rw f (w, store-within k m ms h ws)
]

if-within :
    (b : Bool) (x y : Round)
    → All WithinLimit x.method_row.tiers
    → All WithinLimit y.method_row.tiers
    → All WithinLimit (if b then x else y).method_row.tiers
if-within true x y f g = f
if-within false x y f g = g

send_by-within :
    (d : Delivery) (severity profile method : ℕ) (m : DeliveryMethod)
    → d.tested ≤ d.counted
    → All WithinLimit m.tiers
    → All WithinLimit (send_by d severity profile method m).method_row.tiers
unfolding send_by
send_by-within d severity profile method m h w =
    let sent = send_if_not_rate_limited-WithinLimit d.delivers severity d.tested d.counted m h w in
    if-within (not d.is_created) _ _ w
      (if-within (not m.enabled) _ _ w (if-within (not d.is_updated) _ _ sent sent))

send_round-within :
    (d : Delivery) (severity profile method : ℕ) (o : Option DeliveryMethod) (log : Log)
    → d.tested ≤ d.counted
    → FetchedWithin o
    → All MethodWithin log.1
    → All MethodWithin (send_round d severity profile method o log).log.1
unfolding FetchedWithin
send_round-within d severity profile method none log h f w = w
send_round-within d severity profile method (some m) log h f w =
    store-within method (send_by d severity profile method m).method_row log.1
      (send_by-within d severity profile method m h f) w

send_all-within :
    (d : ℕ → Delivery) (severity profile : ℕ) (ks : List ℕ) (log : Log)
    → ((k : ℕ) → (d k).tested ≤ (d k).counted)
    → All MethodWithin log.1
    → All MethodWithin (send_all d severity profile ks log).log.1
unfolding send_all
send_all-within d severity profile [] log h w = w
send_all-within d severity profile (k ∷ ks) log h w =
    let r = send_round (d k) severity profile k (fetch k log.1) log in
    let here =
      send_round-within (d k) severity profile k (fetch k log.1) log (h k) (fetch-within k log.1 w)
        w in
    elim (Bool-cases r.goes_on) [
      | inl t ↦ rw t (send_all-within d severity profile ks r.log h here)
      | inr f ↦ rw f here
    ]

send-within :
    (d : ℕ → Delivery) (severity : ℕ) (p : Profile) (log : Log)
    → ((k : ℕ) → (d k).tested ≤ (d k).counted)
    → All MethodWithin log.1
    → All MethodWithin (send d severity p log).log.1
unfolding send
send-within d severity p log h w = elim (Bool-cases (not p.enabled)) [
  | inl t ↦ rw t w
  | inr f ↦ rw f (send_all-within d severity p.ident p.notification_delivery_methods log h w)
]

send_by_profiles-within :
    (d : ℕ → ℕ → Delivery) (severity : ℕ) (ps : List Profile) (log : Log)
    → ((p k : ℕ) → (d p k).tested ≤ (d p k).counted)
    → All MethodWithin log.1
    → All MethodWithin (send_by_profiles d severity ps log).final.1
unfolding send_by_profiles
send_by_profiles-within d severity [] log h w = w
send_by_profiles-within d severity (p ∷ ps) log h w =
    send_by_profiles-within d severity ps (send (d p.ident) severity p log).log h
      (send-within (d p.ident) severity p log (h p.ident) w)

-- If no tier of a delivery method counts more requests in a period than its limit, then none does
-- after the notifications for an event by any profiles, also where several profiles share a method.
-- No notification is counted before its tiers are tested.
pub send_event_notifications-WithinLimit :
    (d : ℕ → ℕ → Delivery) (severity : ℕ) (own : List Profile) (environment : Option (List Profile))
    (methods : Methods)
    → ((p k : ℕ) → (d p k).tested ≤ (d p k).counted)
    → All MethodWithin methods
    → All MethodWithin (send_event_notifications d severity own environment methods).2
unfolding send_event_notifications
send_event_notifications-WithinLimit d severity own environment methods h w =
    send_by_profiles-within d severity (chosen_profiles own environment) ([], methods) h w
