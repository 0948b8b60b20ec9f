-- ===== src/Services/Counts.antt =====
-- How many spans of executions cover an instant, and how many executions are active then.

use task_manager.Prelude.{
  ℕ, min, max, ◌≤◌, ◌≡◌, refl, Bool, true, false, ◌&&◌, Option, none, some, List, [], ◌∷◌, ltb, leb,
  if◌then◌else◌, and_parts, select, length, for_all, Time, arith, Option-cases, inl, inr,
}
use task_manager.Services.{Run, Span, is_relevant, done_at, span_until, span_of, all_spans}

abbrev pub covers : Time → Span → Bool
covers t s = leb s.lower t && (if s.is_closed then leb t s.upper else ltb t s.upper)

-- How many of the spans cover an instant.
abbrev pub count_at : Time → List Span → ℕ
count_at t spans = length (select (covers t) spans)

-- The execution is one of the service's that the query finds, has started and is not yet done.
abbrev pub is_active : Time → Run → Bool
is_active t r = elim r.started_at [
  | none ↦ false
  | some s ↦ leb s t && elim (done_at r) [ none ↦ true | some d ↦ ltb t d ]
]

abbrev pub running_at : Time → Time → List Run → ℕ
running_at start t runs = length (select (λ r. is_relevant start r && is_active t r) runs)

-- The execution has started, and if it is done, it was done, by this instant.
abbrev pub is_past : Time → Run → Bool
is_past now r = elim r.started_at [
  | none ↦ false
  | some s ↦ leb s now && elim (done_at r) [ none ↦ true | some d ↦ leb d now ]
]

-- The spans of executions, which count those that are active.
pub record Spans (o : Option (List Span)) (start now : Time) (runs : List Run) : Type 0 where
  pub spans : List Span
  pub result : o ≡ some spans
  pub counts :
      (t : Time) → start ≤ t → t ≤ now → count_at t spans ≡ length (select (is_active t) runs)

pub record SpanOf (o : Option Span) (start now : Time) (r : Run) : Type 0 where
  pub span : Span
  pub result : o ≡ some span
  pub covered : (t : Time) → start ≤ t → t ≤ now → covers t span ≡ is_active t r

pub covers-span_until :
    (start now s t : Time) (d : Option Time)
    → start ≤ t
    → t ≤ now
    → (leb s now && elim d [ none ↦ true | some u ↦ leb u now ]) ≡ true
    → covers t (span_until (min (max s start) now) now d)
      ≡ (leb s t && elim d [ none ↦ true | some u ↦ ltb t u ])
covers-span_until start now s t none ha hb h = ground arith
covers-span_until start now s t (some u) ha hb h = ground arith

pub absurd : {A : Type 0} → false ≡ true → A
absurd h = ground arith

pub span_of-SpanOf :
    (start now : Time) (r : Run) → is_past now r ≡ true → SpanOf (span_of start now r) start now r
unfolding span_of
span_of-SpanOf start now r h = elim (Option-cases r.started_at) [
  | inl n ↦ absurd (rw n at h)
  | inr p ↦ record {
    span = span_until (min (max p.0 start) now) now (done_at r);
    result = rw p.1 refl;
    covered = λ t ha hb. rw p.1 (covers-span_until start now p.0 t (done_at r) ha hb (rw p.1 at h));
  }
]

pub length-step :
    (b : Bool) (x : Span) (y : Run) (xs : List Span) (ys : List Run)
    → length xs ≡ length ys
    → length (if b then x ∷ xs else xs) ≡ length (if b then y ∷ ys else ys)
length-step true x y xs ys h = omega (arith, h)
length-step false x y xs ys h = h

pub all_spans-Spans :
    (start now : Time) (runs : List Run)
    → for_all (is_past now) runs ≡ true
    → Spans (all_spans start now runs) start now runs
unfolding all_spans
all_spans-Spans start now [] h = record { spans = []; result = refl; counts = λ t ha hb. refl }
all_spans-Spans start now (r ∷ rs) h =
    let c = and_parts (is_past now r) (for_all (is_past now) rs) h in
    let s = span_of-SpanOf start now r c.0 in
    let l = all_spans-Spans start now rs c.1 in
    record {
      spans = s.span ∷ l.spans;
      result = rw (s.result, l.result) refl;
      counts = λ t ha hb. rw (s.covered t ha hb) (
          length-step (is_active t r) s.span r (select (covers t) l.spans) (select (is_active t) rs)
            (l.counts t ha hb));
    }
