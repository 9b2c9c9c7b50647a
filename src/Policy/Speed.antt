-- ===== src/Policy/Speed.antt =====
-- How fast a granted session is.
use rmvpn.Base.{◌≡◌, refl, Bool, true, false, some, arith}
use rmvpn.Base.Int.{ℤ, pos, ◌≤ℤ◌, ◌<ℤ◌}
use rmvpn.Base.Time.{Time, after}
use rmvpn.Model.{Device, Plan, PlanPolicy, policy_of, is_trial, trial, lite, plus, ultra, other}
use rmvpn.Policy.{quota_of, is_exhausted, session_policy}
use rmvpn.Policy.Admission.{Admitted}

-- Every plan but Trial has a throttled rate that is positive and at most 20 Mbit/s.
throttle_bounds :
    (p : Plan) (base : PlanPolicy)
    → policy_of p ≡ some base
    → is_trial p ≡ false
    → (pos 0 <ℤ base.throttle_bps) × (base.throttle_bps ≤ℤ pos 20_000_000)
unfolding policy_of
throttle_bounds trial base e t = cc
throttle_bounds lite base e t = ground arith
throttle_bounds plus base e t = ground arith
throttle_bounds ultra base e t = ground arith
throttle_bounds (other name) base e t = cc

spent_is_paid : (used quota : ℤ) (t : Bool) → (t ≡ true → used <ℤ quota) → quota ≤ℤ used → t ≡ false
spent_is_paid u k true h q = ground (arith, h refl)
spent_is_paid u k false h q = refl

-- A session that is granted to a device without quota left and without an override in force is
-- marked throttled and limited both ways, above 0 (which would mean no limit) and to at most
-- 20 Mbit/s.
pub throttled_is_limited :
    (now : Time) (d : Device) (base : PlanPolicy)
    → Admitted now d base
    → quota_of d base ≤ℤ d.used_bytes
    → after d.override_expires now ≡ false
    → let s = session_policy now d base in
      (s.throttled ≡ true)
      × (pos 0 <ℤ s.up_bps)
      × (s.up_bps ≤ℤ pos 20_000_000)
      × (pos 0 <ℤ s.down_bps)
      × (s.down_bps ≤ℤ pos 20_000_000)
unfolding session_policy is_exhausted
throttled_is_limited now d base h q o =
    let t = spent_is_paid d.used_bytes (quota_of d base) (is_trial d.plan) h.trial_left q in
    ground (arith, throttle_bounds d.plan base h.known t)
