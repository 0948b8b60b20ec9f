-- ===== src/Services/Closed.antt =====
-- The events after their resolution.

use task_manager.Prelude.{
  ℕ, suc, ◌≡◌, refl, Bool, false, some, List, [], ◌∷◌, ◌++◌, exists_in, Time, arith, Bool-cases,
  inl, inr,
}
use task_manager.Services.{
  Service, Event, Item, is_open, is_insufficient, handle_least, resolving_event, resolving_events,
  resolve_open,
}

pub exists_in-append :
    (p : Event → Bool) (xs ys : List Event)
    → exists_in p xs ≡ false
    → exists_in p ys ≡ false
    → exists_in p (xs ++ ys) ≡ false
exists_in-append p [] ys h g = g
exists_in-append p (x ∷ xs) ys h g = ground (arith, exists_in-append p xs ys (ground arith) g)

pub resolving_events-closed :
    (next : ℕ) (s : Service) (now : Time) (concurrency : ℕ) (es : List Event)
    → exists_in is_open (resolving_events next s now concurrency es) ≡ false
unfolding resolving_events
resolving_events-closed next s now concurrency [] = refl
resolving_events-closed next s now concurrency (e ∷ es) = elim (Bool-cases (is_open e)) [
  | inl t ↦ rw t (
      exists_in-append is_open (resolving_events (suc next) s now concurrency es)
        (resolving_event next s now concurrency e ∷ [])
        (resolving_events-closed (suc next) s now concurrency es) refl)
  | inr f ↦ rw f (resolving_events-closed next s now concurrency es)
]

pub resolve_open-closed :
    (now : Time) (es : List Event) → exists_in is_open (resolve_open now es) ≡ false
resolve_open-closed now [] = refl
resolve_open-closed now (e ∷ es) = ground (arith, resolve_open-closed now es)

pub resolves_all :
    (next : ℕ) (s : Service) (now : Time) (es : List Event) (item : Item)
    → is_insufficient s item ≡ false
    → (exists_in is_open (handle_least next s now es (some item)).events ≡ false)
      × (exists_in is_open (handle_least next s now es (some item)).sent ≡ false)
unfolding handle_least
resolves_all next s now es item h = rw (h) (
  exists_in-append is_open (resolving_events next s now item.concurrency es) (resolve_open now es)
      (resolving_events-closed next s now item.concurrency es) (resolve_open-closed now es),
  resolving_events-closed next s now item.concurrency es,
)
