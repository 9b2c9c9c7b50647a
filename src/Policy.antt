-- ===== src/Policy.antt =====
-- internal/policy/service.go: who may connect, at which speed, and where to. The clock is an
-- argument, read once for each call.
pub mod Torrent
pub mod Admission
pub mod Speed
pub mod Access
use rmvpn.Base.{String, Bool, true, false, not, ◌&&◌, ◌||◌, Option, none, some, ◌==◌, if◌then◌else◌}
use rmvpn.Base.Int.{ℤ, pos, leb_ℤ, ltb_ℤ}
use rmvpn.Base.Text.{Runes}
use rmvpn.Base.Time.{Time, after}
use rmvpn.Crypto.{Crypto, hash}
use rmvpn.Model.{
  Device, PlanPolicy, SessionPolicy, AuthDecision, granted, refused, policy_of, is_trial,
}
use rmvpn.Exec.{M, pure, ◌>>=◌}
use rmvpn.Store.Devices.{device_by_credential_hash, device_by_id}
use Torrent.{is_p2p}

-- A quota of 0 or less stands for the plan's.
unfoldable pub quota_of : Device → PlanPolicy → ℤ
quota_of d base = if leb_ℤ d.quota_bytes (pos 0) then base.quota_bytes else d.quota_bytes

unfoldable pub is_exhausted : Device → PlanPolicy → Bool
unfolding quota_of
is_exhausted d base = leb_ℤ (quota_of d base) d.used_bytes

-- A lease of 0 bytes or less is none; another is used up at its end or its last byte.
unfoldable pub lease_spent : Time → Device → Bool
lease_spent now d =
    ltb_ℤ (pos 0) d.lease_bytes
    && (not (after d.lease_expires now) || leb_ℤ d.lease_bytes d.used_bytes)

unfoldable pub session_policy : Time → Device → PlanPolicy → SessionPolicy
unfolding is_exhausted
session_policy now d base =
    let throttled = is_exhausted d base in
    let overridden = after d.override_expires now in
    let up = if throttled then base.throttle_bps else base.up_bps in
    let down = if throttled then base.throttle_bps else base.down_bps in
    record {
      up_bps = if overridden then d.override_up_bps else up;
      down_bps = if overridden then d.override_down_bps else down;
      priority = base.priority;
      p2p_allowed = if overridden then d.override_p2p else base.p2p_allowed;
      device_id = d.id;
      throttled = throttled;
      compliance = true;
    }

unfoldable pub decide_plan : Time → Device → Option PlanPolicy → AuthDecision
decide_plan now d none = refused "unknown_plan"
decide_plan now d (some base) =
    if is_trial d.plan && is_exhausted d base
    then refused "trial_quota_exhausted"
    else if not (is_exhausted d base) && lease_spent now d
    then refused "quota_lease_exhausted"
    else granted d.id (session_policy now d base)

unfoldable pub decide : Time → Option Device → AuthDecision
decide now none = refused "invalid_credential"
decide now (some d) =
    if not d.active
    then refused "device_revoked"
    else if not (after d.subscription_ends now)
    then refused "subscription_expired"
    else decide_plan now d (policy_of d.plan)

unfoldable pub authenticate : Crypto → Time → String → M AuthDecision
unfolding device_by_credential_hash
authenticate c now credential =
    if credential == ""
    then pure (refused "missing_credential")
    else do found ← device_by_credential_hash (hash c credential); pure (decide now found)

-- The Boolean and the reason that Authorize returns beside its error.
pub data Verdict : Type 0 where
  allowed : Verdict
  denied : String → Verdict

unfoldable pub decide_peer : Time → Device → Option PlanPolicy → Bool → Verdict
decide_peer now d none p2p = denied "unknown_plan"
decide_peer now d (some base) p2p =
    let p2p_allowed = if after d.override_expires now then d.override_p2p else base.p2p_allowed in
    if not p2p_allowed && p2p then denied "p2p_blocked" else allowed

-- `blocked` is compliance.Blocked, which the caller supplies.
unfoldable pub authorize_device :
    (Runes → M Bool) → Time → Option Device → Runes → Runes → M Verdict
authorize_device blocked now none address payload = pure (denied "device_revoked")
authorize_device blocked now (some d) address payload =
    if not d.active then pure (denied "device_revoked") else do
      hit ← blocked address
      pure (
          if hit
          then denied "compliance_blocked"
          else decide_peer now d (policy_of d.plan) (is_p2p address payload))

unfoldable pub authorize : (Runes → M Bool) → Time → String → Runes → Runes → M Verdict
unfolding device_by_id authorize_device
authorize blocked now id address payload = do
  found ← device_by_id id
  authorize_device blocked now found address payload
