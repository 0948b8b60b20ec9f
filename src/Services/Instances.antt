-- ===== src/Services/Instances.antt =====
-- What the service concurrency checker finds, and the number of instances that were running.

use task_manager.Prelude.{
  ℕ, ◌≤◌, ◌<◌, ◌≡◌, refl, ap, ◌∙◌, true, false, Option, some, List, [], ◌∷◌, ltb, leb, select,
  or_else, exists_in, lt→ltb, length-select-select, for_all-select, for_all, Time, arith,
}
use mathlib.Core.List.{Memᴰ}
use task_manager.Services.{
  Run, Service, Event, Span, Item, Checked, interval_start, is_relevant, is_open, last_is_open,
  is_insufficient, handle_least, check_service, new_event,
}
use task_manager.Services.Least.{least_item-LeastOf}
use task_manager.Services.Counts.{count_at, is_active, running_at, is_past, all_spans-Spans}
use task_manager.Services.Closed.{resolves_all}

-- What the checker relies on of `intervals.IntervalDict`: for the sum of 1 over each of the spans
-- and of 0 over the closed interval, the items are the sums at the instants of the interval, and
-- each instant has an item.
pub record CountsSpans (items : Time → Time → List Span → List Item) : Type 0 where
  pub sound :
      (start now : Time) (spans : List Span) (i : Item)
      → start ≤ now
      → Memᴰ i (items start now spans)
      → (t : Time) × (start ≤ t) × (t ≤ now) × (i.concurrency ≡ count_at t spans)
  pub complete :
      (start now : Time) (spans : List Span) (t : Time)
      → start ≤ t
      → t ≤ now
      → (i : Item) × Memᴰ i (items start now spans) × (i.concurrency ≡ count_at t spans)

-- What check_service does, by the least number of instances that ran at one time of the interval.
record Decided (checked : Option Checked) (next : ℕ) (s : Service) (now : Time) (runs : List Run)
    (es : List Event) : Type 0 where
  item : Item
  result : checked ≡ some (handle_least next s now es (some item))
  reached :
      (t : Time) × (interval_start now s ≤ t)
      × (t ≤ now)
      × (item.concurrency ≡ running_at (interval_start now s) t runs)
  least :
      (t : Time)
      → interval_start now s ≤ t
      → t ≤ now
      → item.concurrency ≤ running_at (interval_start now s) t runs

not_started : {a b : ℕ} → a < b → leb b a ≡ false
not_started h = ground arith

insufficient_lem :
    (s : Service) (required : ℕ) (item : Item)
    → s.min_service_instance_count ≡ some required
    → is_insufficient s item ≡ ltb item.concurrency required
insufficient_lem s required item h = rw h refl

reports_new :
    (next : ℕ) (s : Service) (now : Time) (es : List Event) (item : Item)
    → is_insufficient s item ≡ true
    → last_is_open es ≡ false
    → handle_least next s now es (some item) ≡ (
        let e =
          new_event next
            (or_else s.severity_on_insufficient_instances 0)
            now
            (or_else s.min_service_instance_count 0)
            item in
        record { events = e ∷ es; sent = e ∷ [] })
unfolding handle_least
reports_new next s now es item h o = rw (h, o) refl

le→ltb : (a b : ℕ) → a ≤ b → ltb b a ≡ false
le→ltb a b h = ground arith

module _ {items : Time → Time → List Span → List Item} (laws : CountsSpans items) where
  check_service-Decided :
      (next : ℕ) (s : Service) (now : Time) (runs : List Run) (es : List Event)
      → interval_start now s < now
      → for_all (is_past now) runs ≡ true
      → Decided (check_service items next s now runs es) next s now runs es
  unfolding check_service
  check_service-Decided next s now runs es h p =
      let start = interval_start now s in
      let spans =
        all_spans-Spans start now (select (is_relevant start) runs)
          (for_all-select (is_past now) (is_relevant start) runs p) in
      let first = laws.complete start now spans.spans start (omega arith) (omega arith) in
      let least = least_item-LeastOf first.0 (items start now spans.spans) first.1 in
      let found = laws.sound start now spans.spans least.item (omega arith) least.member in
      let counts = λ (t : Time) (ha : start ≤ t) (hb : t ≤ now).
        spans.counts t ha hb ∙ length-select-select (is_active t) (is_relevant start) runs in
      record {
        item = least.item;
        result = rw (not_started h, spans.result, least.result) refl;
        reached = (found.0, found.1, found.2, found.3 ∙ counts found.0 found.1 found.2);
        least = λ t ha hb.
            let i = laws.complete start now spans.spans t ha hb in
            omega (arith, least.least i.0 i.1, i.2, counts t ha hb);
      }

-- If at some time of the interval fewer instances of a service were running than it requires, and
-- its last event is not open, then the check creates an open event and sends notifications for it,
-- and for nothing else. The event's concurrency is below the number required, and at most that of
-- each time of the interval. The executions' instants are not in the future.
pub check_service-detects :
    {items : Time → Time → List Span → List Item} (laws : CountsSpans items) (next : ℕ)
    (s : Service) (now : Time) (runs : List Run) (es : List Event) (required t : ℕ)
    → for_all (is_past now) runs ≡ true
    → s.min_service_instance_count ≡ some required
    → last_is_open es ≡ false
    → interval_start now s < now
    → interval_start now s ≤ t
    → t ≤ now
    → running_at (interval_start now s) t runs < required
    → (e : Event) × (check_service items next s now runs es
        ≡ some (record { events = e ∷ es; sent = e ∷ [] }))
      × (is_open e ≡ true)
      × (e.detected_concurrency < required)
      × (e.detected_concurrency ≤ running_at (interval_start now s) t runs)
check_service-detects laws next s now runs es required t hp hr ho hs ha hb hl =
    let d = check_service-Decided laws next s now runs es hs hp in
    let below = d.least t ha hb in
    let few =
      insufficient_lem s required d.item hr
      ∙ lt→ltb d.item.concurrency required (omega (arith, below, hl)) in
    (
      new_event next (or_else s.severity_on_insufficient_instances 0) now
          (or_else s.min_service_instance_count 0) d.item,
      d.result ∙ ap some (reports_new next s now es d.item few ho),
      refl,
      omega (arith, below, hl),
      below,
    )

-- If the interval that the check looks at is not empty, every execution has started and none started
-- or ended after now, and at each time of the interval at least as many instances of a service were
-- running as it requires, then the check leaves no event open, and sends no notification for an open
-- event.
pub check_service-sufficient :
    {items : Time → Time → List Span → List Item} (laws : CountsSpans items) (next : ℕ)
    (s : Service) (now : Time) (runs : List Run) (es : List Event) (required : ℕ)
    → for_all (is_past now) runs ≡ true
    → s.min_service_instance_count ≡ some required
    → interval_start now s < now
    → ((t : Time)
        → interval_start now s ≤ t
        → t ≤ now
        → required ≤ running_at (interval_start now s) t runs)
    → (c : Checked) × (check_service items next s now runs es ≡ some c)
      × (exists_in is_open c.events ≡ false)
      × (exists_in is_open c.sent ≡ false)
check_service-sufficient laws next s now runs es required hp hr hs h =
    let d = check_service-Decided laws next s now runs es hs hp in
    let enough = h d.reached.0 d.reached.1 d.reached.2 in
    let q = resolves_all next s now es d.item (
      insufficient_lem s required d.item hr
      ∙ le→ltb required d.item.concurrency (omega (arith, enough, d.reached.3))) in
    (handle_least next s now es (some d.item), d.result, q.0, q.1)
