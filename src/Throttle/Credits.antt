-- ===== src/Throttle/Credits.antt =====
-- How many requests of a month are allowed.
use task_manager.Prelude.{
  ℕ, zero, suc, ◌+◌, ◌-◌, ◌≤◌, ◌≡◌, min, true, false, Option, none, some, arith, if◌then◌else◌, ltb,
  Bool-cases, inl, inr,
}
use task_manager.Throttle.{Moment, GroupInfo, same_month, is_previous_month, is_throttled, charge}

-- A number of requests in one month: those that are allowed, and the group's record.
pub requests : ℕ → Option ℕ → Moment → GroupInfo → ℕ × GroupInfo
requests zero limit now g = (0, g)
requests (suc n) limit now g =
    let first = charge limit now g in
    let rest = requests n limit now first.1 in ((if first.0 then 1 else 0) + rest.0, rest.1)

-- The credits that a group has used in a month: none if its record is of another month.
abbrev pub credited : Moment → GroupInfo → ℕ
credited now g = elim g.last_used_at [
  | none ↦ g.used_current_month
  | some last ↦ if same_month last now then g.used_current_month else 0
]

same_month_refl : (now : Moment) → same_month now now ≡ true
same_month_refl now = ground arith

charge-allowed :
    (most : ℕ) (now : Moment) (g : GroupInfo)
    → suc (credited now g) ≤ most
    → let r = charge (some most) now g in (r.0 ≡ true) × (credited now r.1 ≡ suc (credited now g))
unfolding charge
charge-allowed most now g le = ground (arith, same_month_refl now)

charge-refused :
    (most : ℕ) (now : Moment) (g : GroupInfo)
    → most ≤ credited now g
    → let r = charge (some most) now g in (r.0 ≡ false) × (credited now r.1 ≡ credited now g)
unfolding charge
charge-refused most now g le = ground (arith, same_month_refl now)

-- Of any number of requests with an API key in one month exactly as many are allowed as the limit
-- leaves beside the credits that the group has used in that month before, which are none if its
-- last request was in another month; and each allowed one is counted for the month.
pub requests-allowed :
    (n most : ℕ) (now : Moment) (g : GroupInfo)
    → let r = requests n (some most) now g in
      (r.0 ≡ min n (most - credited now g)) × (credited now r.1 ≡ credited now g + r.0)
unfolding requests
requests-allowed zero most now g = (omega arith, omega arith)
requests-allowed (suc n) most now g =
    let r = charge (some most) now g in
    let rest = requests-allowed n most now r.1 in
    elim (Bool-cases (ltb (credited now g) most)) [
      | inl b ↦
          let first = charge-allowed most now g (ground (arith, b)) in
          (ground (arith, b, first.0, first.1, rest.0), ground (arith, b, first.0, first.1, rest.1))
      | inr b ↦
          let first = charge-refused most now g (ground (arith, b)) in
          (ground (arith, b, first.0, first.1, rest.0), ground (arith, b, first.0, first.1, rest.1))
    ]

-- The first request with an API key in a later month that is not the next one is charged as the
-- first of its month, but the record of the previous month keeps the credits of an older one.
pub charge-skips :
    (limit : Option ℕ) (now last : Moment) (g : GroupInfo)
    → g.last_used_at ≡ some last
    → same_month last now ≡ false
    → is_previous_month last now ≡ false
    → is_throttled limit 0 ≡ false
    → let r = charge limit now g in
      (r.1.used_current_month ≡ 1) × (r.1.used_previous_month ≡ g.used_previous_month)
unfolding charge
charge-skips limit now last g h ns np nt = rw h (ground arith)
