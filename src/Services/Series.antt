-- ===== src/Services/Series.antt =====
-- The events after any sequence of checks of a service.
use mathlib.Core.Option as Option
use task_manager.Prelude.{
  ℕ, ◌≤◌, ◌≡◌, refl, Bool, true, false, Option, none, some, List, [], ◌∷◌, exists_in, select,
  length, arith, Bool-cases, inl, inr, Time, if◌then◌else◌, leb,
}
use task_manager.Services.{
  Run, Service, Event, Span, Item, Checked, is_open, last_is_open, is_insufficient, handle_least,
  check_service, interval_start, all_spans, is_relevant, least_item, unchanged,
}
use task_manager.Services.Closed.{resolves_all}

-- Only the newest event may be open.
IsSettled : List Event → Type 0
IsSettled [] = Unit
IsSettled (e ∷ es) = exists_in is_open es ≡ false

IsSettled-of_closed : (es : List Event) → exists_in is_open es ≡ false → IsSettled es
unfolding IsSettled
IsSettled-of_closed [] h = tt
IsSettled-of_closed (e ∷ es) h = ground arith

closed_of_last :
    (es : List Event) → IsSettled es → last_is_open es ≡ false → exists_in is_open es ≡ false
unfolding IsSettled
closed_of_last [] s h = refl
closed_of_last (e ∷ es) s h = ground arith

handle_least-IsSettled :
    (next : ℕ) (s : Service) (now : Time) (es : List Event) (o : Option Item)
    → IsSettled es
    → IsSettled (handle_least next s now es o).events
unfolding handle_least IsSettled
handle_least-IsSettled next s now es none h = h
handle_least-IsSettled next s now es (some item) h = elim (Bool-cases (is_insufficient s item)) [
  | inl t ↦ elim (Bool-cases (last_is_open es)) [
    | inl u ↦ rw (t, u) h
    | inr v ↦ rw (t, v) (closed_of_last es h v)
  ]
  | inr f ↦
      IsSettled-of_closed (handle_least next s now es (some item)).events
        (resolves_all next s now es item f).0
]

abbrev pub after : List Event → Option Checked → List Event
after es none = es
after es (some c) = c.events

-- One check: its instant, the id of the next event, and the executions that there are.
pub record Moment : Type 0 where
  pub now : Time
  pub next : ℕ
  pub runs : List Run

-- Checks one after the other; the exception of one leaves the events as they were.
pub check_repeatedly :
    (Time → Time → List Span → List Item) → Service → List Moment → List Event → List Event
check_repeatedly items s [] es = es
check_repeatedly items s (m ∷ ms) es =
    check_repeatedly items s ms (after es (check_service items m.next s m.now m.runs es))

check_service-IsSettled :
    (items : Time → Time → List Span → List Item) (next : ℕ) (s : Service) (now : Time)
    (runs : List Run) (es : List Event)
    → IsSettled es
    → IsSettled (after es (check_service items next s now runs es))
unfolding check_service
check_service-IsSettled items next s now runs es h =
    go (leb now (interval_start now s))
      (all_spans (interval_start now s) now (select (is_relevant (interval_start now s)) runs))
  where
    go :
        (b : Bool) (o : Option (List Span))
        → IsSettled (
            after es (
              if b
              then some (unchanged es)
              else Option.map
                  (λ spans.
                    handle_least next s now es
                      (least_item none (items (interval_start now s) now spans)))
                  o))
    go true o = h
    go false none = h
    go false (some spans) =
        handle_least-IsSettled next s now es
          (least_item none (items (interval_start now s) now spans)) h

closed-length : (es : List Event) → exists_in is_open es ≡ false → length (select is_open es) ≡ 0
closed-length [] h = refl
closed-length (e ∷ es) h = ground (arith, closed-length es)

IsSettled-length : (es : List Event) → IsSettled es → length (select is_open es) ≤ 1
unfolding IsSettled
IsSettled-length [] h = omega arith
IsSettled-length (e ∷ es) h = ground (arith, closed-length es h)

check_repeatedly-IsSettled :
    (items : Time → Time → List Span → List Item) (s : Service) (ms : List Moment) (es : List Event)
    → IsSettled es
    → IsSettled (check_repeatedly items s ms es)
unfolding check_repeatedly
check_repeatedly-IsSettled items s [] es h = h
check_repeatedly-IsSettled items s (m ∷ ms) es h =
    check_repeatedly-IsSettled items s ms (after es (check_service items m.next s m.now m.runs es))
      (check_service-IsSettled items m.next s m.now m.runs es h)

-- Whatever the dictionary of intervals answers, a service for which there was no event has at most
-- one open event after any sequence of checks.
pub check_repeatedly-one_open :
    (items : Time → Time → List Span → List Item) (s : Service) (ms : List Moment)
    → length (select is_open (check_repeatedly items s ms [])) ≤ 1
unfolding IsSettled
check_repeatedly-one_open items s ms =
    IsSettled-length (check_repeatedly items s ms []) (check_repeatedly-IsSettled items s ms [] tt)
