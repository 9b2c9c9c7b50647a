-- ===== src/Plane/Lifecycle/Steps.antt =====
-- The steps of a subscription, each where it is due.
use rmvpn.Base.{
  ◌+◌, ◌*◌, ◌≤◌, ◌≢◌, ◌⊎◌, leb→le, eq_iff, String, true, Option, none, some, ◌≡◌, refl, sym, ap,
  ◌∙◌, arith, inl, inr,
}
use rmvpn.Base.Rows.{Memᴰ}
use rmvpn.Base.Int.{ℤ, pos, ◌≤ℤ◌}
use rmvpn.Base.Time.{Time, hour}
use rmvpn.Plane.Tables.{
  Plane, PlanRow, WalletRow, SubscriptionRow, SubscriptionStatus, in_force, in_grace, expired,
  suspended, pending_trial,
}
use rmvpn.Plane.Plans.{is_in_force}
use rmvpn.Plane.Lifecycle.{is_past, is_over, target_of, affords, is_in_grace}

-- A paid period in force is over.
pub record IsDue (now : Time) (s : SubscriptionRow) : Type 0 where
  pub paid : s.plan_code ≢ "TRIAL"
  pub running : s.status ≡ in_force
  pub end : Time
  pub ends : s.period_ends_at ≡ some end
  pub reached : end ≤ now

-- The pending plan, or the plan itself where none is pending.
abbrev pub IsTarget : SubscriptionRow → String → Type 0
IsTarget s code =
    (s.pending_plan_code ≡ some code) ⊎ ((s.pending_plan_code ≡ none) × (s.plan_code ≡ code))

-- A step of one subscription at `now`, with the tables `p` that its renewal is decided on: the
-- balance covers the plan that it is renewed with.
pub data Step (now : Time) (p : Plane) : SubscriptionRow → SubscriptionRow → Type 0 where
  renewal :
      (s : SubscriptionRow) (due : IsDue now s) (plan : PlanRow) (wallet : WalletRow)
      → Memᴰ plan p.plans
      → IsTarget s plan.code
      → Memᴰ wallet p.wallets
      → wallet.user_id ≡ s.user_id
      → plan.price_kopecks ≤ℤ wallet.balance_kopecks
      → Step now p s (record s {
        plan_code = plan.code;
        pending_plan_code = none;
        status = in_force;
        period_started_at = some due.end;
        period_ends_at = some (due.end + 30 * 24 * hour);
        grace_ends_at = none;
        quota_bytes = plan.quota_bytes;
        used_bytes = pos 0;
      })
  trial_end :
      (s : SubscriptionRow) (end : Time)
      → s.plan_code ≡ "TRIAL"
      → s.status ≡ in_force
      → s.period_ends_at ≡ some end
      → end ≤ now
      → Step now p s (record s { status = expired })
  into_grace :
      (s : SubscriptionRow)
      → IsDue now s
      → Step now p s (record s { status = in_grace; grace_ends_at = some (now + 24 * hour) })
  suspension :
      (s : SubscriptionRow) (end : Time)
      → s.status ≡ in_grace
      → s.grace_ends_at ≡ some end
      → end ≤ now
      → Step now p s (record s { status = suspended })

-- At most one step.
pub data Moves (now : Time) (p : Plane) : SubscriptionRow → SubscriptionRow → Type 0 where
  stays : (s : SubscriptionRow) → Moves now p s s
  steps : (s t : SubscriptionRow) → Step now p s t → Moves now p s t

-- A renewal, then the end of a trial, then grace, then a suspension: each at most once.
pub record Passes (now : Time) (p : Plane) (s t : SubscriptionRow) : Type 0 where
  pub paid : SubscriptionRow
  pub tried : SubscriptionRow
  pub graced : SubscriptionRow
  pub first : Moves now p s paid
  pub second : Moves now p paid tried
  pub third : Moves now p tried graced
  pub fourth : Moves now p graced t

pub affords_enough :
    (b : Option ℤ) (o : Option PlanRow) (plan : PlanRow)
    → affords b o ≡ some plan
    → (a : ℤ) × (b ≡ some a) × (o ≡ some plan) × (plan.price_kopecks ≤ℤ a)
affords_enough none o plan h = cc
affords_enough (some b) none plan h = cc
affords_enough (some b) (some x) plan h = (b, refl, ground arith, ground arith)

pub in_force_status : (s : SubscriptionStatus) → is_in_force s ≡ true → s ≡ in_force
in_force_status in_force h = refl
in_force_status in_grace h = cc
in_force_status expired h = cc
in_force_status suspended h = cc
in_force_status pending_trial h = cc

pub in_grace_status : (s : SubscriptionStatus) → is_in_grace s ≡ true → s ≡ in_grace
in_grace_status in_force h = cc
in_grace_status in_grace h = refl
in_grace_status expired h = cc
in_grace_status suspended h = cc
in_grace_status pending_trial h = cc

pub past_end :
    (now : Time) (o : Option Time)
    → is_past now o ≡ true
    → (end : Time) × (o ≡ some end) × (end ≤ now)
past_end now none h = cc
past_end now (some end) h = (end, refl, leb→le end now h)

pub is_over-IsDue : (now : Time) (s : SubscriptionRow) → is_over now s ≡ true → IsDue now s
is_over-IsDue now s h =
    let (end, e, l) = past_end now s.period_ends_at (ground (arith, h)) in
    record {
      paid = λ q. ground (arith, h, (eq_iff s.plan_code "TRIAL").1 q);
      running = in_force_status s.status (ground (arith, h));
      end = end;
      ends = e;
      reached = l;
    }

pub target_of-IsTarget :
    (s : SubscriptionRow) (o : Option String) (code : String)
    → s.pending_plan_code ≡ o
    → code ≡ target_of o s.plan_code
    → IsTarget s code
target_of-IsTarget s none code e h = inr (e, sym h)
target_of-IsTarget s (some pending) code e h = inl (e ∙ ap some (sym h))
