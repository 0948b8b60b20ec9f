-- ===== src/Notifications/Complete.antt =====
-- Which notifications there are after an event has been sent.
use task_manager.Prelude.{
  ℕ, length, ◌≡◌, refl, sym, Bool, true, false, Option, none, some, List, [], ◌∷◌, ◌++◌, map,
  select, for_all, and_parts, if◌then◌else◌, arith,
}
use task_manager.Notifications.{
  Profile, Methods, Delivery, Tally, Log, send, chosen_profiles, send_by_profiles,
  send_event_notifications, is_empty, Log,
}
use task_manager.Notifications.Rounds.{
  is_stored, summary, pairs, Saves, SentAs, SentAs-trans, append_nil, select-same, send-Goes,
}

abbrev pub all_pairs : Methods → List Profile → List (ℕ × ℕ × Bool)
all_pairs ms [] = []
all_pairs ms (p ∷ ps) = pairs ms p ++ all_pairs ms ps

all_pairs-same :
    (ms ns : Methods) (ps : List Profile)
    → ((k : ℕ) → is_stored ms k ≡ is_stored ns k)
    → all_pairs ms ps ≡ all_pairs ns ps
all_pairs-same ms ns [] h = refl
all_pairs-same ms ns (p ∷ ps) h =
    rw
      (
        select-same (is_stored ms) (is_stored ns) p.notification_delivery_methods h,
        all_pairs-same ms ns ps h,
      )
      refl

record TallyOf (before : Log) (t : Tally) (n : ℕ) (expected : List (ℕ × ℕ × Bool)) : Type 0 where
  counted : t.count ≡ n
  sent_as : SentAs before t.final expected

send_by_profiles-TallyOf :
    (d : ℕ → ℕ → Delivery) (severity : ℕ) (ps : List Profile) (log : Log)
    → ((p k : ℕ) → Saves (d p k))
    → for_all (λ (p : Profile). p.enabled) ps ≡ true
    → TallyOf log (send_by_profiles d severity ps log) (length ps) (all_pairs log.1 ps)
unfolding send_by_profiles
send_by_profiles-TallyOf d severity [] log s h = record {
  counted = refl;
  sent_as = record { notified = sym (append_nil (map summary log.0)); stored = λ k. refl };
}
send_by_profiles-TallyOf d severity (p ∷ ps) log s h =
    let c = and_parts p.enabled (for_all (λ (q : Profile). q.enabled) ps) h in
    let r = send (d p.ident) severity p log in
    let one = send-Goes (d p.ident) severity p log (s p.ident) c.0 in
    let rest = send_by_profiles-TallyOf d severity ps r.log s c.1 in
    record {
      counted = rw (one.goes_on, rest.counted) (omega arith);
      sent_as = rw (all_pairs-same r.log.1 log.1 ps one.sent_as.stored) at (
          SentAs-trans log r.log (send_by_profiles d severity ps r.log).final _ _ one.sent_as
            rest.sent_as);
    }

selected :
    (ps : List Profile)
    → for_all (λ (p : Profile). p.enabled) (select (λ (p : Profile). p.enabled) ps) ≡ true
selected [] = refl
selected (p ∷ ps) = ground (arith, selected ps)

chosen :
    (own : List Profile) (environment : Option (List Profile))
    → for_all (λ (p : Profile). p.enabled) (chosen_profiles own environment) ≡ true
unfolding chosen_profiles
chosen own none = selected own
chosen own (some profiles) = go (is_empty (select (λ (p : Profile). p.enabled) own))
  where
    go :
        (b : Bool)
        → for_all
            (λ (p : Profile). p.enabled)
            (if b
              then select (λ (p : Profile). p.enabled) profiles
              else select (λ (p : Profile). p.enabled) own)
          ≡ true
    go true = selected profiles
    go false = selected own

-- Where the rows of notifications can be saved, sending an event saves one notification for each of
-- the profiles that are chosen and each of its delivery methods that there are, in their order, and
-- no other; each of them is completed: it has been sent, has failed, was limited or was skipped; and
-- the number of the profiles is returned. The profiles chosen are enabled.
pub send_event_notifications_complete :
    (d : ℕ → ℕ → Delivery) (severity : ℕ) (own : List Profile) (environment : Option (List Profile))
    (methods : Methods)
    → ((p k : ℕ) → Saves (d p k))
    → (map summary (send_event_notifications d severity own environment methods).1
        ≡ all_pairs methods (chosen_profiles own environment))
      × ((send_event_notifications d severity own environment methods).0
          ≡ length (chosen_profiles own environment))
      × (for_all (λ (p : Profile). p.enabled) (chosen_profiles own environment) ≡ true)
unfolding send_event_notifications
send_event_notifications_complete d severity own environment methods h =
    let s =
      send_by_profiles-TallyOf d severity (chosen_profiles own environment) ([], methods) h
        (chosen own environment) in
    (s.sent_as.notified, s.counted, chosen own environment)
