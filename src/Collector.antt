-- ===== src/Collector.antt =====
-- internal/usage/collector.go: what Hysteria's traffic API has counted is booked on the devices,
-- and a device whose quota or lease is used up is kicked.
pub mod Limits
use rmvpn.Base.{
  ℕ, ◌+◌, String, Bool, false, ◌&&◌, ◌||◌, Option, none, some, List, [], ◌∷◌, length, eqb,
  if◌then◌else◌,
}
use rmvpn.Base.Int.{ℤ, pos, negsuc, leb_ℤ, ltb_ℤ}
use rmvpn.Base.Time.{Time}
use rmvpn.Base.Outcome.{ok, backend, invalid_encoding}
use rmvpn.Model.{Device, PlanPolicy, policy_of, is_trial}
use rmvpn.Exec.{M, pure, guard, or_raise, attempt, call, ◌>>=◌, ◌>>◌}
use rmvpn.Store.State.{set_state}
use rmvpn.Store.Devices.{device_by_id}
use rmvpn.Store.Usage.{add_usage}

pub record Counter : Type 0 where
  pub tx : ℤ
  pub rx : ℤ

-- An HTTP answer; `body` is what its JSON decodes to, `none` where it does not.
pub record Answer {ℓ} (A : Type ℓ) : Type ℓ where
  pub status : ℕ
  pub body : Option A

unfoldable pub fetch : {A : Type 0} → Answer A → M A
unfolding call
fetch answer = do
  reply ← call (λ n. (ok answer, n))
  guard (eqb reply.status 200) backend
  or_raise invalid_encoding reply.body

-- The request that reaches Hysteria. A status outside 200–299 counts as a failed call.
unfoldable pub kick : String → M (Unit {0})
unfolding call
kick id = call (λ n. (ok tt, record n { kicked = id ∷ n.kicked }))

unfoldable pub over_limit : Device → ℤ → PlanPolicy → Bool
over_limit d used policy =
    let quota = if leb_ℤ d.quota_bytes (pos 0) then policy.quota_bytes else d.quota_bytes in
    (is_trial d.plan && leb_ℤ quota used)
    || (ltb_ℤ (pos 0) d.lease_bytes && leb_ℤ d.lease_bytes used)

unfoldable pub must_kick : Device → ℤ → Option PlanPolicy → Bool
unfolding over_limit
must_kick d used none = false
must_kick d used (some policy) = over_limit d used policy

-- A failed lookup and a missing device both end the round of this device.
unfoldable pub enforce : String → ℤ → Option (Option Device) → M (Unit {0})
unfolding must_kick policy_of kick
enforce id used none = pure tt
enforce id used (some none) = pure tt
enforce id used (some (some d)) =
    if must_kick d used (policy_of d.plan) then (do attempt (kick id); pure tt) else pure tt

unfoldable pub collect_device : Time → String → Counter → M (Unit {0})
unfolding add_usage device_by_id enforce
collect_device now id counter =
    if ltb_ℤ counter.tx (pos 0) || ltb_ℤ counter.rx (pos 0) then pure tt else do
      used ← add_usage id counter.tx counter.rx now
      found ← attempt (device_by_id id)
      enforce id used found

-- The list gives the counters in the order in which the range over the map meets them.
unfoldable pub collect_devices : Time → List (String × Counter) → M (Unit {0})
unfolding collect_device
collect_devices now [] = pure tt
collect_devices now ((id, counter) ∷ rest) = do
  collect_device now id counter
  collect_devices now rest

abbrev pub connections : List (String × ℤ) → ℕ
connections [] = 0
connections ((id, pos n) ∷ rest) = n + connections rest
connections ((id, negsuc n) ∷ rest) = connections rest

-- `itoa` is fmt.Sprint of an int.
unfoldable pub collect_online : (ℕ → String) → Answer (List (String × ℤ)) → M (Unit {0})
unfolding fetch set_state
collect_online itoa answer = do
  online ← fetch answer
  set_state "online_devices" (itoa (length online))
  set_state "online_connections" (itoa (connections online))

unfoldable pub collect :
    (ℕ → String)
    → Time
    → Answer (List (String × Counter))
    → Answer (List (String × ℤ))
    → M (Unit {0})
unfolding fetch collect_devices collect_online
collect itoa now traffic online = do
  counters ← fetch traffic
  collect_devices now counters
  collect_online itoa online
