-- ===== src/StatusEvents/Created.antt =====
-- How many events an execution has for each status.
use task_manager.Prelude.{
  ℕ, ◌≤◌, ◌≡◌, refl, inl, inr, Bool, true, false, Option, none, some, List, [], ◌∷◌, arith, length,
  select, exists_in, Time, Bool-cases, sym, if◌then◌else◌, ◌==◌,
}
use task_manager.Status.{Status, same_status, eq_of_same_status}
use task_manager.StatusEvents.{
  Policy, StatusEvent, Finished, Creation, has_status, maybe_postpone, new_event,
  created_or_postponed, create_with, should_create_status_change_event, severity_for,
  maybe_create_and_send_status_change_event,
}

-- No status has two events.
abbrev pub OnePerStatus : List StatusEvent → Type 0
OnePerStatus es = (s : Status) → length (select (has_status s) es) ≤ 1

select-absent :
    (s : Status) (es : List StatusEvent)
    → exists_in (has_status s) es ≡ false
    → length (select (has_status s) es) ≡ 0
select-absent s [] h = refl
select-absent s (e ∷ es) h = ground (arith, select-absent s es)

absent-of-same :
    (s t : Status) (es : List StatusEvent)
    → same_status t s ≡ true
    → exists_in (has_status t) es ≡ false
    → length (select (has_status s) es) ≡ 0
absent-of-same s t es b h = select-absent s es (rw (sym (eq_of_same_status t s b)) h)

cons-OnePerStatus :
    (e : StatusEvent) (es : List StatusEvent)
    → exists_in (has_status e.status) es ≡ false
    → OnePerStatus es
    → OnePerStatus (e ∷ es)
cons-OnePerStatus e es h w s = elim (Bool-cases (same_status e.status s)) [
  | inl b ↦ ground (arith, absent-of-same s e.status es b h)
  | inr b ↦ ground (arith, w s)
]

maybe_postpone-status :
    (p : Policy) (now : Time) (e : StatusEvent) → (maybe_postpone p now e).1.status ≡ e.status
unfolding maybe_postpone
maybe_postpone-status p now e = ground arith

created-OnePerStatus :
    (r : Bool × StatusEvent) (es : List StatusEvent)
    → exists_in (has_status r.1.status) es ≡ false
    → OnePerStatus es
    → OnePerStatus (created_or_postponed r es).all_events
created-OnePerStatus (true, e) es h w = cons-OnePerStatus e es h w
created-OnePerStatus (false, e) es h w = cons-OnePerStatus e es h w

if-OnePerStatus :
    (b : Bool) (x y : Creation)
    → OnePerStatus x.all_events
    → OnePerStatus y.all_events
    → OnePerStatus (if b then x else y).all_events
if-OnePerStatus true x y wx wy = wx
if-OnePerStatus false x y wx wy = wy

create_with-OnePerStatus :
    (p : Policy) (s : Status) (now : Time) (es : List StatusEvent) (o : Option ℕ)
    → exists_in (has_status s) es ≡ false
    → OnePerStatus es
    → OnePerStatus (create_with p s now es o).all_events
create_with-OnePerStatus p s now es none h w = w
create_with-OnePerStatus p s now es (some severity) h w =
    if-OnePerStatus (severity == 0) (record { created = none; all_events = es; notified = [] })
      (created_or_postponed (maybe_postpone p now (new_event s severity)) es) w
      (created-OnePerStatus (maybe_postpone p now (new_event s severity)) es
        (rw (maybe_postpone-status p now (new_event s severity)) h) w)

should_create-absent :
    (p : Policy) (x : Finished) (now : Time) (es : List StatusEvent)
    → should_create_status_change_event p x now es ≡ true
    → exists_in (has_status x.status) es ≡ false
unfolding should_create_status_change_event
should_create-absent p x now es h = ground arith

-- If no status has two events among those of an execution, then none has two after
-- maybe_create_and_send_status_change_event.
pub maybe_create-OnePerStatus :
    (o : Option Policy) (x : Finished) (now : Time) (es : List StatusEvent)
    → OnePerStatus es
    → OnePerStatus (maybe_create_and_send_status_change_event o x now es).all_events
unfolding maybe_create_and_send_status_change_event
maybe_create-OnePerStatus none x now es w = w
maybe_create-OnePerStatus (some p) x now es w =
    elim (Bool-cases (should_create_status_change_event p x now es)) [
      | inl b ↦ rw b (
          create_with-OnePerStatus p x.status now es (severity_for p x.status)
            (should_create-absent p x now es b) w)
      | inr b ↦ rw b w
    ]
