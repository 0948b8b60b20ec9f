-- ===== src/Schedules/Alerts.antt =====
-- Which events a check leaves behind.
use task_manager.Prelude.{
  ℕ, ◌<◌, ◌≡◌, refl, ◌∙◌, Bool, true, false, none, some, List, [], ◌∷◌, arith, Time, length, select,
}
use task_manager.Schedules.{
  ℤ, pos, difference, negsuc, same_integer, is_not_positive, is_negative, Schedulable, MissingEvent,
  cron, TimeRange, is_within, required_instance_count, missing_count, concurrency_at, is_prevented,
  matches, first, Checked, checked, new_event, create_event, check_executions,
}

-- An event that is found and records a number of missing executions.
difference-surplus :
    (a b n : ℕ)
    → a < b
    → (same_integer (difference a b) (pos n) ≡ false) × (is_negative (difference a b) ≡ true)
difference-surplus a b n h = ground arith

-- If an open event matches, which holds a number as its column does, and more executions started
-- within the time range than are required, check_executions raises: the negative count is refused,
-- and the event stays open.
pub check_executions-surplus :
    (s : Schedulable) (uuid : ℕ) (r : TimeRange) (now : Time) (table : List MissingEvent)
    (e : MissingEvent) (n : ℕ)
    → first s.pattern (select (matches s r) table) ≡ some e
    → e.missing_execution_count ≡ pos n
    → required_instance_count s < length (select (is_within r) s.runs)
    → check_executions s uuid r now table ≡ none
unfolding check_executions
check_executions-surplus s uuid r now table e n hf hn lt =
    let d =
      difference-surplus (required_instance_count s) (length (select (is_within r) s.runs)) n lt in
    rw hf (rw hn (rw d.0 (rw d.1 refl)))

-- No event of the table matches.
abbrev pub NoMatch : Schedulable → TimeRange → List MissingEvent → Type 0
NoMatch s r table = select (matches s r) table ≡ []

new-matches :
    (s : Schedulable) (uuid x : ℕ) (r : TimeRange) (missing : ℤ)
    → s.pattern ≡ cron x
    → matches s r (new_event s uuid r missing) ≡ true
new-matches s uuid x r missing h = rw h (ground arith)

same_integer_refl : (a : ℤ) → same_integer a a ≡ true
same_integer_refl (pos n) = ground arith
same_integer_refl (negsuc n) = ground arith

select-new :
    (s : Schedulable) (uuid x : ℕ) (r : TimeRange) (missing : ℤ) (table : List MissingEvent)
    → s.pattern ≡ cron x
    → NoMatch s r table
    → select (matches s r) (new_event s uuid r missing ∷ table) ≡ new_event s uuid r missing ∷ []
select-new s uuid x r missing table hp hn = rw (new-matches s uuid x r missing hp) (rw hn refl)

-- A check where no event matches.
check-unmatched :
    (s : Schedulable) (uuid : ℕ) (r : TimeRange) (now : Time) (table : List MissingEvent)
    → NoMatch s r table
    → check_executions s uuid r now table ≡ some (create_event s uuid r (missing_count s r) table)
unfolding check_executions first
check-unmatched s uuid r now table hn = rw hn refl

-- A check that finds the event of the last one.
check-new :
    (s : Schedulable) (uuid other x : ℕ) (r : TimeRange) (now : Time) (table : List MissingEvent)
    → s.pattern ≡ cron x
    → NoMatch s r table
    → let found = new_event s uuid r (missing_count s r) ∷ table in
      check_executions s other r now found ≡ some (checked none found [])
unfolding check_executions first
check-new s uuid other x r now table hp hn =
    rw (select-new s uuid x r (missing_count s r) table hp hn)
      (rw (same_integer_refl (missing_count s r)) refl)

created-quiet :
    (s : Schedulable) (uuid other x : ℕ) (r : TimeRange) (now : Time) (table : List MissingEvent)
    (few prevented : Bool)
    → is_not_positive (missing_count s r) ≡ few
    → is_prevented s.max_concurrency (concurrency_at s r.expected) ≡ prevented
    → s.pattern ≡ cron x
    → NoMatch s r table
    → let after = (create_event s uuid r (missing_count s r) table).table in
      check_executions s other r now after ≡ some (checked none after [])
created-quiet s uuid other x r now table true prevented ef ep hp hn =
    rw ef (check-unmatched s other r now table hn ∙ rw ef refl)
created-quiet s uuid other x r now table false true ef ep hp hn =
    rw ef (rw ep (check-unmatched s other r now table hn ∙ rw ef (rw ep refl)))
created-quiet s uuid other x r now table false false ef ep hp hn =
    rw ef (rw ep (check-new s uuid other x r now table hp hn))

-- Where no event matches a cron schedule's time range, check_executions returns, and a second check
-- for the same range and executions returns no event, sends nothing and leaves the table as it is:
-- a missing execution is reported once.
pub check_executions-reports_once :
    (s : Schedulable) (uuid other x : ℕ) (r : TimeRange) (now later : Time)
    (table : List MissingEvent)
    → s.pattern ≡ cron x
    → NoMatch s r table
    → (c : Checked) × (check_executions s uuid r now table ≡ some c)
      × (check_executions s other r later c.table ≡ some (checked none c.table []))
check_executions-reports_once s uuid other x r now later table hp hn = (
  create_event s uuid r (missing_count s r) table,
  check-unmatched s uuid r now table hn,
  created-quiet s uuid other x r later table (is_not_positive (missing_count s r))
      (is_prevented s.max_concurrency (concurrency_at s r.expected)) refl refl hp hn,
)
