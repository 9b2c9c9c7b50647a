-- ===== src/Tests/Sessions.antt =====
-- Sessions, access and speed at a sample device.
use rmvpn.Base.{Bool, true, false, some, [], refl, ◌≡◌, arith, find}
use rmvpn.Base.Int.{pos, ◌≤ℤ◌, ◌<ℤ◌}
use rmvpn.Base.Outcome.{ok}
use rmvpn.Base.Text.{Runes, codes}
use rmvpn.Crypto.{hash}
use rmvpn.Model.{Device, PlanPolicy, SessionPolicy, granted, policy_of}
use rmvpn.Node.Tables.{DeviceRow}
use rmvpn.Exec.{M, pure, query, call, spent}
use rmvpn.Store.Devices.{has_hash, has_id, scan_device, device_by_credential_hash, device_by_id}
use rmvpn.Policy.{
  authenticate, authorize, allowed, authorize_device, decide_peer, session_policy, quota_of,
  is_exhausted, lease_spent, decide, decide_plan,
}
use rmvpn.Policy.Torrent.{is_p2p}
use rmvpn.Policy.Admission.{
  Admitted, is_granted, authenticate_sound, authenticate_complete, allowed-decide,
}
use rmvpn.Policy.Access.{MayReach, authorize_sound}
use rmvpn.Policy.Speed.{throttled_is_limited}
use rmvpn.Xray
use rmvpn.Vless.{id_from_credential_hash, id_from_credential, id_from_credential_hash-hash}
use rmvpn.Tests.Samples.{named, toy_crypto, phone_row, sample}

abbrev phone : Device
phone = scan_device phone_row

abbrev lite_policy : PlanPolicy
lite_policy = record {
  up_bps = pos 50_000_000;
  down_bps = pos 50_000_000;
  quota_bytes = pos 150_000_000_000;
  throttle_bps = pos 5_000_000;
  priority = 1;
  p2p_allowed = false;
}

abbrev session : SessionPolicy
session = record {
  up_bps = pos 50_000_000;
  down_bps = pos 50_000_000;
  priority = 1;
  p2p_allowed = false;
  device_id = "phone";
  throttled = false;
  compliance = true;
}

phone-Admitted : Admitted 7 phone lite_policy
unfolding policy_of quota_of
phone-Admitted = record {
  active = refl;
  paid = ground arith;
  known = refl;
  trial_left = λ h. ground arith;
  lease_left = λ q l. ground arith;
}

phone_granted : (authenticate toy_crypto 7 "secret" sample).0 ≡ ok (granted "phone" session)
unfolding authenticate hash device_by_credential_hash query call decide decide_plan is_exhausted
    lease_spent session_policy quota_of policy_of
phone_granted = refl

authenticate_sound_example :
    (row : DeviceRow) × (base : PlanPolicy) × (find
        (has_hash (hash toy_crypto "secret"))
        sample.held.store.devices
      ≡ some row)
    × Admitted 7 (scan_device row) base
    × ("phone" ≡ row.device_id)
    × (session ≡ session_policy 7 (scan_device row) base)
authenticate_sound_example =
    authenticate_sound toy_crypto 7 "secret" sample "phone" session phone_granted

authenticate_complete_example :
    (authenticate toy_crypto 7 "secret" sample).0
    ≡ ok (granted "phone" (session_policy 7 phone lite_policy))
unfolding hash
authenticate_complete_example =
    authenticate_complete toy_crypto 7 "secret" sample phone_row lite_policy (named "secret" refl)
      refl phone-Admitted refl

allowed-decide_example : Xray.allowed 7 phone ≡ is_granted (decide 7 (some phone))
allowed-decide_example = allowed-decide 7 phone

abbrev open_filter : Runes → M Bool
open_filter address = pure false

web_allowed : (authorize open_filter 7 "phone" (codes "example.org:443") [] sample).0 ≡ ok allowed
unfolding authorize device_by_id query call authorize_device decide_peer policy_of is_p2p
web_allowed = refl

authorize_sound_example :
    (row : DeviceRow) × (find (has_id "phone") sample.held.store.devices ≡ some row)
    × (row.active ≡ true)
    × ((open_filter (codes "example.org:443") (spent sample)).0 ≡ ok false)
    × MayReach 7 (scan_device row) (is_p2p (codes "example.org:443") [])
authorize_sound_example =
    authorize_sound open_filter 7 "phone" (codes "example.org:443") [] sample web_allowed

abbrev spent_phone : Device
spent_phone = record phone { used_bytes = pos 2000 }

spent_phone-Admitted : Admitted 7 spent_phone lite_policy
unfolding policy_of quota_of
spent_phone-Admitted = record {
  active = refl;
  paid = ground arith;
  known = refl;
  trial_left = λ h. ground arith;
  lease_left = λ q l. ground arith;
}

quota_spent : quota_of spent_phone lite_policy ≤ℤ pos 2000
unfolding quota_of
quota_spent = ground arith

throttled_is_limited_example :
    let s = session_policy 7 spent_phone lite_policy in
    (s.throttled ≡ true)
    × (pos 0 <ℤ s.up_bps)
    × (s.up_bps ≤ℤ pos 20_000_000)
    × (pos 0 <ℤ s.down_bps)
    × (s.down_bps ≤ℤ pos 20_000_000)
throttled_is_limited_example =
    throttled_is_limited 7 spent_phone lite_policy spent_phone-Admitted quota_spent refl

id_from_credential_hash-hash_example :
    id_from_credential_hash toy_crypto (λ s. s) (hash toy_crypto "secret")
    ≡ ok (id_from_credential toy_crypto (λ s. s) "secret")
id_from_credential_hash-hash_example = id_from_credential_hash-hash toy_crypto (λ s. s) "secret"
