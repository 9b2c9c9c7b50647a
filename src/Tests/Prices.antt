-- ===== src/Tests/Prices.antt =====
-- An upgrade in the middle of a period, and a reservation.
use rmvpn.Base.{ℕ, ◌+◌, ◌-◌, ◌*◌, ◌≤◌, ◌≡◌, some, arith}
use rmvpn.Base.Int.{pos, ◌≤ℤ◌}
use rmvpn.Base.Time.{second}
use rmvpn.Billing.{prorate_upgrade, reservable_bytes}
use rmvpn.Billing.Bounds.{terms, prorate_upgrade_bounds, reservable_bounds}

-- 30 s of a period of 60 s are left, and the plan rises from 100 to 300 kopecks.
prorate_upgrade_bounds_example :
    (cost quota : ℕ) × (prorate_upgrade
        (terms 100 1000 (60 * second))
        (terms 300 5000 (60 * second))
        (30 * second)
        (60 * second)
      ≡ some (pos cost, pos quota))
    × (cost ≤ 300 - 100)
    × (quota ≤ 5000 - 1000)
    × (30 * second + 60 * second ≤ 60 * second → (cost ≡ 300 - 100) × (quota ≡ 5000 - 1000))
prorate_upgrade_bounds_example =
    prorate_upgrade_bounds (30 * second) (60 * second) 100 1000 300 5000 (60 * second) (60 * second)
      (ground arith) (ground arith) (ground arith) (ground arith) (ground arith) (ground arith)
      (ground arith) (ground arith)

reservable_bounds_example :
    let r = reservable_bytes (pos 100) (pos 70) (pos 50) in
    (pos 0 ≤ℤ r) × (r ≤ℤ pos 50) × (r ≤ℤ pos (100 - 70)) × (70 + 50 ≤ 100 → r ≡ pos 50)
reservable_bounds_example = reservable_bounds 100 70 50 (ground arith) (ground arith)
