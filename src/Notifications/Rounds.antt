-- ===== src/Notifications/Rounds.antt =====
-- The notifications that sending by one profile saves, where their rows can be saved.
use task_manager.Prelude.{
  ℕ, Bool-cases, inl, inr, ◌≡◌, refl, sym, ap, ◌∙◌, Bool, true, false, Option, none, some, List, [],
  ◌∷◌, ◌++◌, map, select, is_some, if◌then◌else◌, arith,
}
use task_manager.RateLimit.{
  Tier, DeliveryMethod, Sent, disabled, delivered, delivery_failed, rate_limited,
  send_if_not_rate_limited,
}
use task_manager.Notifications.{
  Profile, Notification, SendStatus, sending, Methods, fetch, store, Delivery, Round, Progress,
  with_notification, send_by, Log, send_round, send_all, send, completed, with_tier, tier_at, Log,
  new_notification,
}

abbrev pub is_stored : Methods → ℕ → Bool
is_stored ms k = is_some (fetch k ms)

abbrev pub is_final : SendStatus → Bool
is_final sending = false
is_final s = true

-- The profile and the method of a notification, and whether it is completed.
abbrev pub summary : Notification → ℕ × ℕ × Bool
summary n = (n.profile, n.delivery_method, is_final n.send_status)

abbrev pub done_by : ℕ → ℕ → ℕ × ℕ × Bool
done_by profile k = (profile, k, true)

-- One triple for each delivery method of a profile that there is.
abbrev pub pairs : Methods → Profile → List (ℕ × ℕ × Bool)
pairs ms p = map (done_by p.ident) (select (is_stored ms) p.notification_delivery_methods)

append_assoc : {A : Type 0} (xs ys zs : List A) → (xs ++ ys) ++ zs ≡ xs ++ (ys ++ zs)
append_assoc [] ys zs = refl
append_assoc (x ∷ xs) ys zs = ap (λ r. x ∷ r) (append_assoc xs ys zs)

pub append_nil : {A : Type 0} (xs : List A) → xs ++ [] ≡ xs
append_nil [] = refl
append_nil (x ∷ xs) = ap (λ r. x ∷ r) (append_nil xs)

map-append : {A B : Type 0} (f : A → B) (xs ys : List A) → map f (xs ++ ys) ≡ map f xs ++ map f ys
map-append f [] ys = refl
map-append f (x ∷ xs) ys = ap (λ r. f x ∷ r) (map-append f xs ys)

is_stored-store :
    (j k : ℕ) (m : DeliveryMethod) (ms : Methods) → is_stored (store j m ms) k ≡ is_stored ms k
unfolding fetch store
is_stored-store j k m [] = refl
is_stored-store j k m ((i, n) ∷ ms) = ground (arith, is_stored-store j k m ms)

with_tier-summary :
    (n : Notification) (index : ℕ) (o : Option Tier)
    → summary (with_tier n index o) ≡ (n.profile, n.delivery_method, true)
with_tier-summary n index none = refl
with_tier-summary n index (some t) = refl

completed-summary :
    (n : Notification) (m : DeliveryMethod) (sent : Sent)
    → summary (completed n m sent) ≡ (n.profile, n.delivery_method, true)
completed-summary n m disabled = refl
completed-summary n m delivered = refl
completed-summary n m delivery_failed = refl
completed-summary n m (rate_limited index) = with_tier-summary n index (tier_at index m.tiers)

-- The notifications of a profile's method can be saved.
abbrev pub Saves : Delivery → Type 0
Saves d = (d.is_created ≡ true) × (d.is_updated ≡ true)

-- The round saves a completed notification and goes on.
record Completes (profile method : ℕ) (r : Round) : Type 0 where
  notification : Notification
  is_saved : r.notification ≡ some notification
  is_completed : summary notification ≡ (profile, method, true)
  returns : r.returns ≡ true

send_by-Completes :
    (d : Delivery) (severity profile method : ℕ) (m : DeliveryMethod)
    → Saves d
    → Completes profile method (send_by d severity profile method m)
unfolding send_by
send_by-Completes d severity profile method m (c, u) =
    let sent = send_if_not_rate_limited d.delivers severity d.tested d.counted m in
    elim (Bool-cases m.enabled) [
      | inl t ↦ record {
        notification = completed (new_notification profile method true) m sent.0;
        is_saved = rw (c, u, t) refl;
        is_completed = completed-summary (new_notification profile method true) m sent.0;
        returns = rw (c, u, t) refl;
      }
      | inr f ↦ record {
        notification = new_notification profile method false;
        is_saved = rw (c, f) refl;
        is_completed = refl;
        returns = rw (c, f) refl;
      }
    ]

-- The log has the pairs, and the same methods are stored.
pub record SentAs (before after : Log) (expected : List (ℕ × ℕ × Bool)) : Type 0 where
  pub notified : map summary after.0 ≡ map summary before.0 ++ expected
  pub stored : (k : ℕ) → is_stored after.1 k ≡ is_stored before.1 k

pub select-same : (p q : ℕ → Bool) (ks : List ℕ) → ((k : ℕ) → p k ≡ q k) → select p ks ≡ select q ks
select-same p q [] h = refl
select-same p q (k ∷ ks) h = rw (h k, select-same p q ks h) refl

-- No exception is raised, and the log is the one that is sent.
pub record Goes (before : Log) (r : Progress) (expected : List (ℕ × ℕ × Bool)) : Type 0 where
  pub goes_on : r.goes_on ≡ true
  pub sent_as : SentAs before r.log expected

send_round-Goes :
    (d : Delivery) (severity profile method : ℕ) (o : Option DeliveryMethod) (log : Log)
    → Saves d
    → Goes log
        (send_round d severity profile method o log)
        (if is_some o then done_by profile method ∷ [] else [])
send_round-Goes d severity profile method none log h = record {
  goes_on = refl;
  sent_as = record { notified = sym (append_nil (map summary log.0)); stored = λ k. refl };
}
send_round-Goes d severity profile method (some m) log h =
    let r = send_by-Completes d severity profile method m h in
    record {
      goes_on = r.returns;
      sent_as = record {
        notified =
            ap (λ o. map summary (with_notification o log.0)) r.is_saved
            ∙ map-append summary log.0 (r.notification ∷ [])
            ∙ ap (λ x. map summary log.0 ++ (x ∷ [])) r.is_completed;
        stored =
            λ k. is_stored-store method k (send_by d severity profile method m).method_row log.1;
      };
    }

pub SentAs-trans :
    (a b c : Log) (xs ys : List (ℕ × ℕ × Bool))
    → SentAs a b xs
    → SentAs b c ys
    → SentAs a c (xs ++ ys)
SentAs-trans a b c xs ys f g = record {
  notified = g.notified ∙ ap (λ r. r ++ ys) f.notified ∙ append_assoc (map summary a.0) xs ys;
  stored = λ k. g.stored k ∙ f.stored k;
}

pairs_step :
    (b : Bool) (profile k : ℕ) (ks : List ℕ)
    → (if b then done_by profile k ∷ [] else []) ++ map (done_by profile) ks
      ≡ map (done_by profile) (if b then k ∷ ks else ks)
pairs_step true profile k ks = refl
pairs_step false profile k ks = refl

pub send_all-Goes :
    (d : ℕ → Delivery) (severity profile : ℕ) (ks : List ℕ) (log : Log)
    → ((k : ℕ) → Saves (d k))
    → Goes log
        (send_all d severity profile ks log)
        (map (done_by profile) (select (is_stored log.1) ks))
unfolding send_all
send_all-Goes d severity profile [] log h = record {
  goes_on = refl;
  sent_as = record { notified = sym (append_nil (map summary log.0)); stored = λ k. refl };
}
send_all-Goes d severity profile (k ∷ ks) log h =
    let r = send_round (d k) severity profile k (fetch k log.1) log in
    let one = send_round-Goes (d k) severity profile k (fetch k log.1) log (h k) in
    let rest = send_all-Goes d severity profile ks r.log h in
    rw one.goes_on (record {
      goes_on = rest.goes_on;
      sent_as =
          rw
            (
              select-same (is_stored r.log.1) (is_stored log.1) ks one.sent_as.stored,
              pairs_step (is_stored log.1 k) profile k (select (is_stored log.1) ks),
            )
            at
            (SentAs-trans log r.log (send_all d severity profile ks r.log).log _ _ one.sent_as
              rest.sent_as);
    })

pub send-Goes :
    (d : ℕ → Delivery) (severity : ℕ) (p : Profile) (log : Log)
    → ((k : ℕ) → Saves (d k))
    → p.enabled ≡ true
    → Goes log (send d severity p log) (pairs log.1 p)
unfolding send
send-Goes d severity p log s h =
    rw h (send_all-Goes d severity p.ident p.notification_delivery_methods log s)
