-- ===== src/RateLimit/Bounds.antt =====
-- No tier counts more requests in a period than it allows.
use task_manager.Prelude.{
  ℕ, ◌+◌, ◌≤◌, ◌≡◌, refl, sym, Bool, true, false, not, Option, none, some, List, [], ◌∷◌, arith,
  Time, All, if◌then◌else◌, exists_in, inl, inr, Bool-cases, is_some, count_or_zero,
}
use task_manager.RateLimit.{
  Tier, DeliveryMethod, is_exhausted, limited_from, rate_limited_tier_index, increment_tier,
  increment_tiers, increment_rate_limit_counters, Sent, disabled, attempt, send_if_not_rate_limited,
}

-- The count of a tier that has a limit and a period is at most the limit.
abbrev pub WithinLimit : Tier → Type 0
WithinLimit t =
    (most period : ℕ)
    → t.max_requests_per_period ≡ some most
    → t.request_period_seconds ≡ some period
    → count_or_zero t.request_count_in_period ≤ most

increment_tier-WithinLimit :
    (severity : ℕ) (tested counted : Time) (t : Tier)
    → tested ≤ counted
    → is_exhausted severity tested t ≡ false
    → WithinLimit t
    → WithinLimit (increment_tier severity counted t)
unfolding is_exhausted increment_tier
increment_tier-WithinLimit severity tested counted t le h w most period em ep =
    ground (arith, w most period)

increment_tiers-WithinLimit :
    (severity : ℕ) (tested counted : Time) (ts : List Tier)
    → tested ≤ counted
    → exists_in (is_exhausted severity tested) ts ≡ false
    → All WithinLimit ts
    → All WithinLimit (increment_tiers severity counted ts)
unfolding increment_tiers
increment_tiers-WithinLimit severity tested counted [] le h w = tt
increment_tiers-WithinLimit severity tested counted (t ∷ ts) le h (w, ws) = (
  increment_tier-WithinLimit severity tested counted t le (ground arith) w,
  increment_tiers-WithinLimit severity tested counted ts le (ground arith) ws,
)

limited_from-none :
    (index severity : ℕ) (now : Time) (ts : List Tier)
    → is_some (limited_from index severity now ts) ≡ exists_in (is_exhausted severity now) ts
unfolding limited_from
limited_from-none index severity now [] = refl
limited_from-none index severity now (t ∷ ts) = elim (Bool-cases (is_exhausted severity now t)) [
  | inl e ↦ rw e
  | inr e ↦ rw e (limited_from-none (index + 1) severity now ts)
]

attempt-WithinLimit :
    (o : Option ℕ) (delivers : Bool) (severity : ℕ) (tested counted : Time)
    (method : DeliveryMethod)
    → tested ≤ counted
    → is_some o ≡ exists_in (is_exhausted severity tested) method.tiers
    → All WithinLimit method.tiers
    → All WithinLimit (attempt o delivers severity counted method).1.tiers
unfolding attempt increment_rate_limit_counters
attempt-WithinLimit (some i) delivers severity tested counted method le e w = w
attempt-WithinLimit none true severity tested counted method le e w =
    increment_tiers-WithinLimit severity tested counted method.tiers le (sym e) w
attempt-WithinLimit none false severity tested counted method le e w = w

unless-WithinLimit :
    (b : Bool) (x y : Sent × DeliveryMethod)
    → All WithinLimit x.1.tiers
    → All WithinLimit y.1.tiers
    → All WithinLimit (if b then x else y).1.tiers
unless-WithinLimit true x y wx wy = wx
unless-WithinLimit false x y wx wy = wy

-- If no tier with a limit and a period counts more requests than its limit, then none does after
-- send_if_not_rate_limited, whatever it returns or raises.
pub send_if_not_rate_limited-WithinLimit :
    (delivers : Bool) (severity : ℕ) (tested counted : Time) (method : DeliveryMethod)
    → tested ≤ counted
    → All WithinLimit method.tiers
    → All WithinLimit (send_if_not_rate_limited delivers severity tested counted method).1.tiers
unfolding send_if_not_rate_limited rate_limited_tier_index
send_if_not_rate_limited-WithinLimit delivers severity tested counted method le w =
    unless-WithinLimit (not method.enabled) (disabled, method)
      (attempt (rate_limited_tier_index method severity tested) delivers severity counted method) w
      (attempt-WithinLimit (rate_limited_tier_index method severity tested) delivers severity tested
        counted method le (limited_from-none 0 severity tested method.tiers) w)

-- A tier limits an event exactly when some tier that applies to its severity has reached its limit
-- in the current period.
pub rate_limited_tier_index_iff :
    (method : DeliveryMethod) (severity : ℕ) (now : Time)
    → is_some (rate_limited_tier_index method severity now)
      ≡ exists_in (is_exhausted severity now) method.tiers
unfolding rate_limited_tier_index
rate_limited_tier_index_iff method severity now = limited_from-none 0 severity now method.tiers
