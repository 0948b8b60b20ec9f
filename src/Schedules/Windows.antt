-- ===== src/Schedules/Windows.antt =====
-- The window in which the execution of a cron schedule is looked for.
use task_manager.Prelude.{
  ℕ, ◌+◌, ◌-◌, ◌≤◌, ◌≡◌, refl, sym, ◌∙◌, Bool, true, false, ltb, if◌then◌else◌, ap, arith, Time,
  seconds,
}
use task_manager.Schedules.{
  Calendar, Schedulable, cron, Previous, ago, never, parse_error, TimeRange, Range, range, no_range,
  rounded, range_since, default_max_early_startup_seconds, default_max_scheduled_lateness_seconds,
  cron_range, pattern_range, execution_time_range,
}

-- The window of an instant: the expected instant is the instant rounded to a second, and the window
-- reaches from a minute before to half an hour after it.
abbrev pub IsWindowOf : Time → TimeRange → Type 0
IsWindowOf t r =
    (r.expected ≤ t + 500000)
    × (t ≤ r.expected + 500000)
    × (r.from ≡ t - 60000000)
    × (r.to ≡ t + 1800000000)

rounded-IsWindowOf :
    (t : Time)
    → IsWindowOf t (record {
      expected = rounded t;
      from = t - seconds default_max_early_startup_seconds;
      to = t + seconds default_max_scheduled_lateness_seconds;
    })
rounded-IsWindowOf t = (omega arith, omega arith, refl, refl)

range_or : TimeRange → Range → TimeRange
range_or d (range r) = r
range_or d _ = d

range-injective : (r q : TimeRange) → range r ≡ range q → r ≡ q
unfolding range_or
range-injective r q h = ap (range_or r) h

-- A range that is found is not the branch that has none.
found-otherwise :
    (b : Bool) (x : Range) (r : TimeRange)
    → (if b then no_range else x) ≡ range r
    → (b ≡ false) × (x ≡ range r)
found-otherwise true x r h = ground arith
found-otherwise false x r h = (refl, h)

since-window :
    (updated t : Time) (r : TimeRange)
    → range_since updated t
        (t - seconds default_max_early_startup_seconds)
        (t + seconds default_max_scheduled_lateness_seconds)
      ≡ range r
    → (updated ≤ t) × IsWindowOf t r
since-window updated t r h =
    let w : TimeRange = record {
      expected = rounded t;
      from = t - seconds default_max_early_startup_seconds;
      to = t + seconds default_max_scheduled_lateness_seconds;
    } in
    let found = found-otherwise (ltb t updated) (range w) r h in
    (ground (arith, found.0), rw (sym (range-injective w r found.1)) (rounded-IsWindowOf t))

cron_range-window :
    (updated now : Time) (p : Previous) (r : TimeRange)
    → cron_range updated now p ≡ range r
    → (delay : ℕ) × (p ≡ ago delay)
      × (300000000 ≤ delay)
      × (updated ≤ now - delay)
      × IsWindowOf (now - delay) r
cron_range-window updated now (ago delay) r h =
    let found =
      found-otherwise (ltb delay 300000000)
        (range_since updated (now - delay) (now - delay - seconds default_max_early_startup_seconds)
          (now - delay + seconds default_max_scheduled_lateness_seconds))
        r h in
    let since = since-window updated (now - delay) r found.1 in
    (delay, refl, ground (arith, found.0), since.0, since.1)
cron_range-window updated now never r h = ground arith
cron_range-window updated now parse_error r h = ground arith

-- If a cron schedule has a time range, the expression fired at least five minutes ago and not
-- before the schedule was updated; the range starts a minute before that instant and ends half an
-- hour after it, and the expected instant is at most half a second away from it.
pub execution_time_range-window :
    (calendar : Calendar) (s : Schedulable) (e : ℕ) (now : Time) (r : TimeRange)
    → s.pattern ≡ cron e
    → execution_time_range calendar s now ≡ range r
    → (delay : ℕ) × (calendar.previous e now ≡ ago delay)
      × (300000000 ≤ delay)
      × (s.schedule_updated_at ≤ now - delay)
      × IsWindowOf (now - delay) r
unfolding execution_time_range
execution_time_range-window calendar s e now r hp h =
    cron_range-window s.schedule_updated_at now (calendar.previous e now) r
      (sym (ap (pattern_range calendar s.schedule_updated_at now) hp) ∙ h)
