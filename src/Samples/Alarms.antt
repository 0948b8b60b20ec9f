-- ===== src/Samples/Alarms.antt =====
-- The theorems on the instances of services and on notifications.
use task_manager.Prelude.{
  ℕ, suc, zero, ◌+◌, ◌-◌, ◌≤◌, ◌<◌, ◌≡◌, refl, ap, sym, true, false, none, some, List, [], ◌∷◌, map,
  length, select, All, arith, exists_in, for_all, Time, ◌==◌, ==_iff, Bool-cases, inl, inr,
}
use mathlib.Core.List.{Memᴰ}
use mathlib.Core.List.Memᴰ.{head, tail, cases_cons}
use task_manager.Services.{
  Run, Service, Event, Span, Item, Checked, is_open, check_service, interval_start,
}
use task_manager.Services.Counts.{count_at, running_at}
use task_manager.Services.Instances.{CountsSpans, check_service-detects, check_service-sufficient}
use task_manager.Services.Series.{check_repeatedly, check_repeatedly-one_open}
use task_manager.RateLimit.{DeliveryMethod}
use task_manager.Notifications.{Profile, Delivery, send_event_notifications, chosen_profiles}
use task_manager.Notifications.Limits.{MethodWithin, send_event_notifications-WithinLimit}
use task_manager.Notifications.Rounds.{summary}
use task_manager.Notifications.Complete.{all_pairs, send_event_notifications_complete}

-- An answer of the dictionary of intervals: one item for each instant, from the last to the first.
abbrev instant : List Span → Time → Item
instant spans t = record { lower = t; upper = t; concurrency = count_at t spans }

abbrev instants : Time → ℕ → List Span → List Item
instants start zero spans = instant spans start ∷ []
instants start (suc n) spans = instant spans (start + suc n) ∷ instants start n spans

instants_sound :
    (start n : ℕ) (spans : List Span) (i : Item)
    → Memᴰ i (instants start n spans)
    → (t : Time) × (start ≤ t) × (t ≤ start + n) × (i.concurrency ≡ count_at t spans)
instants_sound start zero spans i m = elim (cases_cons m) [
  | inl e ↦ (start, omega arith, omega arith, ap (λ (x : Item). x.concurrency) e)
  | inr r ↦ elim r [ ]
]
instants_sound start (suc n) spans i m = elim (cases_cons m) [
  | inl e ↦ (start + suc n, omega arith, omega arith, ap (λ (x : Item). x.concurrency) e)
  | inr r ↦ let s = instants_sound start n spans i r in (s.0, s.1, omega (arith, s.2), s.3)
]

instants_complete :
    (start n : ℕ) (spans : List Span) (t : Time)
    → start ≤ t
    → t ≤ start + n
    → (i : Item) × Memᴰ i (instants start n spans) × (i.concurrency ≡ count_at t spans)
instants_complete start zero spans t h l =
    (instant spans start, head refl, ap (λ x. count_at x spans) (omega arith))
instants_complete start (suc n) spans t h l = elim (Bool-cases (t == start + suc n)) [
  | inl e ↦ (
    instant spans (start + suc n),
    head refl,
    ap (λ x. count_at x spans) (sym ((==_iff t (start + suc n)).0 e)),
  )
  | inr d ↦ let s = instants_complete start n spans t h (ground arith) in (s.0, tail s.1, s.2)
]

abbrev dictionary : Time → Time → List Span → List Item
dictionary start now spans = instants start (now - start) spans

dictionary-CountsSpans : CountsSpans dictionary
dictionary-CountsSpans = record {
  sound = λ start now spans i h m.
      let s = instants_sound start (now - start) spans i m in (s.0, s.1, omega (arith, s.2), s.3);
  complete = λ start now spans t h l. instants_complete start (now - start) spans t h (omega arith);
}

abbrev service : Service
service = record {
  created_at = 0;
  aws_ecs_service_updated_at = none;
  max_manual_start_delay_before_alert_seconds = some 1;
  min_service_instance_count = some 1;
  severity_on_insufficient_instances = some 500;
  severity_on_sufficient_instances_restored = none;
}

abbrev ended_run : Run
ended_run = record {
  started_at = some 500000;
  finished_at = some 1000002;
  marked_done_at = none;
  kill_started_at = none;
  kill_finished_at = none;
}

abbrev live_run : Run
live_run = record ended_run { finished_at = none }

check_service-detects_example :
    (e : Event) × (check_service dictionary 1 service 1000003 (ended_run ∷ []) []
      ≡ some (record { events = e ∷ []; sent = e ∷ [] }))
    × (is_open e ≡ true)
    × (e.detected_concurrency < 1)
    × (e.detected_concurrency
        ≤ running_at (interval_start 1000003 service) 1000003 (ended_run ∷ []))
unfolding interval_start
check_service-detects_example =
    check_service-detects dictionary-CountsSpans 1 service 1000003 (ended_run ∷ []) [] 1 1000003
      refl refl refl (omega arith) (omega arith) (omega arith) (omega arith)

always_one :
    (t : Time)
    → interval_start 1000003 service ≤ t
    → t ≤ 1000003
    → 1 ≤ running_at (interval_start 1000003 service) t (live_run ∷ [])
unfolding interval_start
always_one t h l = ground arith

check_service-sufficient_example :
    (c : Checked) × (check_service dictionary 1 service 1000003 (live_run ∷ []) [] ≡ some c)
    × (exists_in is_open c.events ≡ false)
    × (exists_in is_open c.sent ≡ false)
unfolding interval_start
check_service-sufficient_example =
    check_service-sufficient dictionary-CountsSpans 1 service 1000003 (live_run ∷ []) [] 1 refl refl
      (omega arith) always_one

check_repeatedly-one_open_example :
    length (
      select is_open (
        check_repeatedly dictionary service
          (record { now = 1000003; next = 1; runs = ended_run ∷ [] }
            ∷ record { now = 1000004; next = 2; runs = [] }
            ∷ record { now = 1000005; next = 2; runs = live_run ∷ [] }
            ∷ [])
          []))
    ≤ 1
check_repeatedly-one_open_example = check_repeatedly-one_open dictionary service (
    record { now = 1000003; next = 1; runs = ended_run ∷ [] }
    ∷ record { now = 1000004; next = 2; runs = [] }
    ∷ record { now = 1000005; next = 2; runs = live_run ∷ [] }
    ∷ [])

abbrev few_a_minute : DeliveryMethod
few_a_minute = record {
  enabled = true;
  tiers =
      record {
        max_requests_per_period = some 2;
        request_period_seconds = some 60;
        max_severity = none;
        request_period_started_at = some 5;
        request_count_in_period = some 1;
      }
      ∷ [];
}

abbrev profile_of : ℕ → Profile
profile_of i = record { ident = i; enabled = true; notification_delivery_methods = 4 ∷ 5 ∷ [] }

abbrev at_once : ℕ → ℕ → Delivery
at_once p k = record {
  is_created = true;
  is_updated = true;
  delivers = true;
  tested = 7;
  counted = 8;
}

send_event_notifications-WithinLimit_example :
    All MethodWithin
      (send_event_notifications at_once 500
        (profile_of 1 ∷ profile_of 2 ∷ [])
        none
        ((4, few_a_minute) ∷ [])).2
send_event_notifications-WithinLimit_example =
    send_event_notifications-WithinLimit at_once 500 (profile_of 1 ∷ profile_of 2 ∷ []) none
      ((4, few_a_minute) ∷ []) (λ p k. omega arith) ((λ most period em ep. ground arith, tt), tt)

send_event_notifications_complete_example :
    (map summary
        (send_event_notifications at_once 500
          (profile_of 1 ∷ profile_of 2 ∷ [])
          none
          ((4, few_a_minute) ∷ [])).1
      ≡ all_pairs
          ((4, few_a_minute) ∷ [])
          (chosen_profiles (profile_of 1 ∷ profile_of 2 ∷ []) none))
    × ((send_event_notifications at_once 500
          (profile_of 1 ∷ profile_of 2 ∷ [])
          none
          ((4, few_a_minute) ∷ [])).0
        ≡ length (chosen_profiles (profile_of 1 ∷ profile_of 2 ∷ []) none))
    × (for_all
          (λ (p : Profile). p.enabled)
          (chosen_profiles (profile_of 1 ∷ profile_of 2 ∷ []) none)
        ≡ true)
send_event_notifications_complete_example =
    send_event_notifications_complete at_once 500 (profile_of 1 ∷ profile_of 2 ∷ []) none
      ((4, few_a_minute) ∷ []) (λ p k. (refl, refl))
