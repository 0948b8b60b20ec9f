-- ===== src/PostponedChecker.antt =====
-- server/processes/services/postponed_event_checker.py: the check for events whose postponement has
-- passed. Whether the notifications are sent without an exception is part of the event here.
pub mod Runs
use task_manager.Prelude.{
  ℕ, ◌+◌, ◌-◌, Bool, true, false, not, ◌&&◌, Option, none, some, List, [], ◌∷◌, ◌++◌, leb,
  if◌then◌else◌, is_some, Time, seconds,
}

-- Whom the notifications of an event go through, by what the event refers to.
pub data Recipient : Type 0 where
  execution executable run_environment nobody : Recipient

pub record PostponedEvent : Type 0 where
  pub ident : ℕ
  pub postponed_until : Option Time
  pub triggered_at : Option Time
  pub resolved_at : Option Time
  pub resolves : Option ℕ
  pub executable_enabled : Option Bool
  pub recipient : Recipient
  pub sends : Bool

abbrev pub max_postponed_age_seconds : ℕ
max_postponed_age_seconds = 604800

abbrev pub has_passed : Option Time → Time → Bool
has_passed none now = false
has_passed (some t) now = leb (now - seconds max_postponed_age_seconds) t && leb t now

-- The filter of check_all.
abbrev pub is_due : Time → PostponedEvent → Bool
is_due now e =
    has_passed e.postponed_until now
    && not (is_some e.triggered_at)
    && not (is_some e.resolves)
    && not (is_some e.resolved_at)

-- What check_event returns or raises, the saved event, and the events whose notifications it asks
-- for.
pub record Checked : Type 0 where
  pub returned : Option Bool
  pub event : PostponedEvent
  pub sent : List PostponedEvent

abbrev pub is_disabled : Option Bool → Bool
is_disabled none = false
is_disabled (some enabled) = not enabled

abbrev pub notify : Recipient → PostponedEvent → Checked
notify nobody e = record { returned = some true; event = e; sent = [] }
notify _ e = record { returned = if e.sends then some true else none; event = e; sent = e ∷ [] }

-- check_event
unfoldable pub check_event : Time → PostponedEvent → Checked
check_event now e =
    if is_disabled e.executable_enabled
    then record { returned = some false; event = record e { resolved_at = some now }; sent = [] }
    else notify e.recipient (record e { triggered_at = some now })

abbrev pub was_triggered : Option Bool → Bool
was_triggered none = false
was_triggered (some b) = b

-- The number of events triggered, the events after the check, and those notified.
pub record Run : Type 0 where
  pub triggered_count : ℕ
  pub events : List PostponedEvent
  pub notified : List PostponedEvent

abbrev pub add : Checked → Run → Run
add c rest = record {
  triggered_count = (if was_triggered c.returned then 1 else 0) + rest.triggered_count;
  events = c.event ∷ rest.events;
  notified = c.sent ++ rest.notified;
}

-- check_all; an exception of one event does not end the loop
unfoldable pub check_all : Time → List PostponedEvent → Run
unfolding check_event
check_all now [] = record { triggered_count = 0; events = []; notified = [] }
check_all now (e ∷ es) =
    let rest = check_all now es in
    if is_due now e then add (check_event now e) rest else record rest { events = e ∷ rest.events }
