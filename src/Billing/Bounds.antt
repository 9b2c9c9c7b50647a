-- ===== src/Billing/Bounds.antt =====
-- Bounds on what an upgrade costs and on what a lease reserves.
use rmvpn.Base.{ℕ, ◌+◌, ◌-◌, ◌*◌, ◌/◌, ◌^◌, ◌≤◌, ◌<◌, ◌≡◌, ap, ◌∙◌, some, arith}
use native.Mathlib.Nat.{le_of_mul-le-mul_right, le_trans, div-mul-le_self, mul-le-mul_left}
use rmvpn.Base.Int.{pos, sub64, wrap, wrap_in_range, ◌≤ℤ◌, ◌-ℤ◌}
use rmvpn.Base.Time.{Time, second}
use rmvpn.Billing.{PlanTerms, prorate_upgrade, share, mul64, quot64, remaining_of, reservable_bytes}

-- A reservation for a nonnegative request, out of a nonnegative remainder and a nonnegative sum of
-- active reservations, is never negative, never more than is asked for, never more than what the
-- active ones leave, and the whole request where that fits.
pub reservable_bounds :
    (remaining active requested : ℕ)
    → remaining < 2 ^ 63
    → active < 2 ^ 63
    → let r = reservable_bytes (pos remaining) (pos active) (pos requested) in
      (pos 0 ≤ℤ r)
      × (r ≤ℤ pos requested)
      × (r ≤ℤ pos (remaining - active))
      × (active + requested ≤ remaining → r ≡ pos requested)
unfolding reservable_bytes sub64 wrap ◌-ℤ◌
reservable_bounds remaining active requested h k =
    (ground arith, ground arith, ground arith, λ f. ground arith)

sub64_pos : (a b : ℕ) → a ≤ b → b < 2 ^ 63 → sub64 (pos b) (pos a) ≡ pos (b - a)
unfolding sub64 wrap ◌-ℤ◌
sub64_pos a b h k = ground arith

mul64_pos : (a b : ℕ) → a * b < 2 ^ 63 → mul64 (pos a) b ≡ pos (a * b)
unfolding mul64
mul64_pos a b h = wrap_in_range (pos (a * b)) h

quot64_pos : (a b : ℕ) → 1 ≤ b → quot64 (pos a) b ≡ some (pos (a / b))
unfolding quot64
quot64_pos a b h = ground arith

share_pos :
    (current next remaining period : ℕ)
    → current ≤ next
    → next < 2 ^ 63
    → (next - current) * remaining < 2 ^ 63
    → 1 ≤ period
    → share (pos current) (pos next) remaining period
      ≡ some (pos ((next - current) * remaining / period))
unfolding share
share_pos current next remaining period o n m q = rw (
  sub64_pos current next o n,
  mul64_pos (next - current) remaining m,
  quot64_pos ((next - current) * remaining) period q,
)

lt_of_le_lt : {a b c : ℕ} → a ≤ b → b < c → a < c
lt_of_le_lt h k = ground (arith, h, k)

-- A share of at most the whole is at most the rise, and the whole is the rise.
scaled_le : (rise part whole : ℕ) → part ≤ whole → 1 ≤ whole → rise * part / whole ≤ rise
scaled_le rise part whole h k =
    le_of_mul-le-mul_right {k = whole}
      (le_trans (div-mul-le_self (rise * part) whole) (mul-le-mul_left rise h)) k

scaled_whole : (rise whole : ℕ) → 1 ≤ whole → rise * whole / whole ≡ rise
scaled_whole rise whole k = grind arith

abbrev pub terms : ℕ → ℕ → ℕ → PlanTerms
terms price quota duration = record {
  price_kopecks = pos price;
  quota_bytes = pos quota;
  duration = pos duration;
}

module _ (now period_end : Time) (cp cq np nq duration next_duration : ℕ) where
  abbrev left : ℕ
  left = remaining_of (terms cp cq duration) now period_end / second

  abbrev whole : ℕ
  whole = duration / second

  left_le : left ≤ whole
  left_le = ground arith

  all_left : (rise : ℕ) → 1 ≤ whole → now + duration ≤ period_end → rise * left / whole ≡ rise
  all_left rise k f =
      let e : left ≡ whole = ground arith in
      ap (λ l. rise * l / whole) e ∙ scaled_whole rise whole k

  -- With time left of a period of at least a second, an upgrade to a plan of no lower price and
  -- quota, whose products fit 64 bits, has a cost and a quota between 0 and the two rises, and
  -- exactly the two rises where a whole period or more is left.
  pub prorate_upgrade_bounds :
      now < period_end
      → second ≤ duration
      → cp ≤ np
      → cq ≤ nq
      → np < 2 ^ 63
      → nq < 2 ^ 63
      → (np - cp) * (duration / second) < 2 ^ 63
      → (nq - cq) * (duration / second) < 2 ^ 63
      → (cost quota : ℕ) × (prorate_upgrade
            (terms cp cq duration)
            (terms np nq next_duration)
            now
            period_end
          ≡ some (pos cost, pos quota))
        × (cost ≤ np - cp)
        × (quota ≤ nq - cq)
        × (now + duration ≤ period_end → (cost ≡ np - cp) × (quota ≡ nq - cq))
  unfolding prorate_upgrade
  prorate_upgrade_bounds t d p q np64 nq64 pp qq =
      let k : 1 ≤ whole = ground arith in
      let fits : (rise : ℕ) → rise * whole < 2 ^ 63 → rise * left < 2 ^ 63 =
        λ rise h. lt_of_le_lt (mul-le-mul_left rise left_le) h in
      let cost = share_pos cp np left whole p np64 (fits _ pp) k in
      let quota = share_pos cq nq left whole q nq64 (fits _ qq) k in
      (
        (np - cp) * left / whole,
        (nq - cq) * left / whole,
        ground (arith, cost, quota),
        scaled_le (np - cp) left whole left_le k,
        scaled_le (nq - cq) left whole left_le k,
        λ f. (all_left (np - cp) k f, all_left (nq - cq) k f),
      )
