-- ===== src/Model.antt =====
-- internal/model/model.go: plans and their policies, devices, decisions, alerts.
use rmvpn.Base.{ℕ, String, Bool, true, false, Option, none, some}
use rmvpn.Base.Int.{ℤ, pos}
use rmvpn.Base.Time.{Time}

-- `Plan` is a string; any text but the four of the constants is `other`.
pub data Plan : Type 0 where
  trial lite plus ultra : Plan
  other : String → Plan

pub record PlanPolicy : Type 0 where
  pub up_bps : ℤ
  pub down_bps : ℤ
  pub quota_bytes : ℤ
  pub throttle_bps : ℤ
  pub priority : ℕ
  pub p2p_allowed : Bool

abbrev plan_policy : ℕ → ℕ → ℕ → ℕ → Bool → PlanPolicy
plan_policy bps quota throttle priority p2p = record {
  up_bps = pos bps;
  down_bps = pos bps;
  quota_bytes = pos quota;
  throttle_bps = pos throttle;
  priority = priority;
  p2p_allowed = p2p;
}

-- The method Policy: `none` where its second result is `false`.
unfoldable pub policy_of : Plan → Option PlanPolicy
policy_of trial = some (plan_policy 30_000_000 20_000_000_000 0 1 false)
policy_of lite = some (plan_policy 50_000_000 150_000_000_000 5_000_000 1 false)
policy_of plus = some (plan_policy 200_000_000 600_000_000_000 10_000_000 2 true)
policy_of ultra = some (plan_policy 0 2_000_000_000_000 20_000_000 3 true)
policy_of (other name) = none

abbrev pub is_trial : Plan → Bool
is_trial trial = true
is_trial lite = false
is_trial plus = false
is_trial ultra = false
is_trial (other name) = false

pub record Device : Type 0 where
  pub id : String
  pub credential_hash : String
  pub plan : Plan
  pub active : Bool
  pub subscription_ends : Time
  pub period_ends : Time
  pub quota_bytes : ℤ
  pub used_bytes : ℤ
  pub lease_bytes : ℤ
  pub lease_expires : Time
  pub override_up_bps : ℤ
  pub override_down_bps : ℤ
  pub override_p2p : Bool
  pub override_expires : Time

pub record SessionPolicy : Type 0 where
  pub up_bps : ℤ
  pub down_bps : ℤ
  pub priority : ℕ
  pub p2p_allowed : Bool
  pub device_id : String
  pub throttled : Bool
  pub compliance : Bool

-- The fields that a refusal leaves empty (`ID` and `Policy`) go with the grant.
pub data AuthDecision : Type 0 where
  granted : String → SessionPolicy → AuthDecision
  refused : String → AuthDecision

pub record Alert : Type 0 where
  pub code : String
  pub severity : String
  pub message : String
  pub created_at : Time
  pub active : Bool
