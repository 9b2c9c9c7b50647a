-- ===== src/Billing.antt =====
-- internal/controlplane/billing.go and provisioning.go: the price of an upgrade within a period,
-- and the bytes that a new lease may reserve.
pub mod Bounds
use rmvpn.Base.{
  ℕ, ◌+◌, ◌-◌, ◌*◌, ◌/◌, ◌≤◌, ◌≡◌, not, ◌||◌, Option, none, some, if◌then◌else◌, eqb, ltb, leb,
}
use rmvpn.Base.Int.{ℤ, pos, negsuc, pos_part, sub64, wrap, leb_ℤ, ltb_ℤ}
use rmvpn.Base.Time.{Time, after, second}

-- `duration` is in nanoseconds.
pub record PlanTerms : Type 0 where
  pub price_kopecks : ℤ
  pub quota_bytes : ℤ
  pub duration : ℤ

-- Go's `a * b` on int64, for b ≥ 0.
unfoldable pub mul64 : ℤ → ℕ → ℤ
unfolding wrap
mul64 (pos n) b = wrap (pos (n * b))
mul64 (negsuc n) b = if eqb b 0 then pos 0 else wrap (negsuc ((n + 1) * b - 1))

abbrev pub cut_quot : ℤ → ℕ → ℤ
cut_quot (pos n) b = pos (n / b)
cut_quot (negsuc n) b = if eqb ((n + 1) / b) 0 then pos 0 else negsuc ((n + 1) / b - 1)

-- Go's `a / b` on int64, for b ≥ 0, cut towards 0; `none` is the panic at 0.
unfoldable pub quot64 : ℤ → ℕ → Option ℤ
quot64 a b = if eqb b 0 then none else some (cut_quot a b)

abbrev pub at_least_zero : ℤ → ℤ
at_least_zero (pos n) = pos n
at_least_zero (negsuc n) = pos 0

abbrev pub map_ℤ : (ℤ → ℤ) → Option ℤ → Option ℤ
map_ℤ f none = none
map_ℤ f (some a) = some (f a)

-- (next - current) * remainingSeconds / periodSeconds, and 0 for a negative result.
unfoldable pub share : ℤ → ℤ → ℕ → ℕ → Option ℤ
unfolding mul64 quot64 sub64
share current next remaining period =
    map_ℤ at_least_zero (quot64 (mul64 (sub64 next current) remaining) period)

abbrev pub both : Option ℤ → Option ℤ → Option (ℤ × ℤ)
both none b = none
both (some a) none = none
both (some a) (some b) = some (a, b)

abbrev pub remaining_of : PlanTerms → Time → Time → ℕ
remaining_of current now period_end =
    let duration = pos_part current.duration in
    if ltb duration (period_end - now) then duration else period_end - now

-- The cost and the quota.
unfoldable pub prorate_upgrade : PlanTerms → PlanTerms → Time → Time → Option (ℤ × ℤ)
unfolding share
prorate_upgrade current next now period_end =
    if not (after period_end now) || leb_ℤ current.duration (pos 0)
    then some (next.price_kopecks, next.quota_bytes)
    else both
        (share current.price_kopecks next.price_kopecks
          (remaining_of current now period_end / second) (pos_part current.duration / second))
        (share current.quota_bytes next.quota_bytes (remaining_of current now period_end / second)
          (pos_part current.duration / second))

unfoldable pub reservable_bytes : ℤ → ℤ → ℤ → ℤ
unfolding sub64
reservable_bytes remaining active requested =
    let available = sub64 remaining active in
    if ltb_ℤ available (pos 0)
    then pos 0
    else if ltb_ℤ available requested
    then available
    else if ltb_ℤ requested (pos 0)
    then pos 0
    else requested
