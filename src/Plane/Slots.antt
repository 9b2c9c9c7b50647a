-- ===== src/Plane/Slots.antt =====
-- internal/controlplane/app.go, createDevice and rebindDevice. IDs, credentials and tokens are
-- drawn: arguments.
pub mod Limits
use rmvpn.Base.{
  ℕ, ◌+◌, ◌*◌, String, Bool, false, not, ◌&&◌, ◌||◌, Option, none, some, List, [], ◌∷◌, ◌++◌, ◌==◌,
  any, find, keep, change, length, is_empty, leb, ltb, if◌then◌else◌,
}
use rmvpn.Base.Text.{Runes, trim_space}
use rmvpn.Base.Time.{Time, hour, after}
use rmvpn.Base.Outcome.{Result, ok, err, constraint_violated, problem}
use rmvpn.Crypto.{Crypto}
use rmvpn.Plane.Tables.{
  Plane, SlotRow, SubscriptionRow, PlanRow, LeaseRow, AssignmentRow, device_revoke,
}
use rmvpn.Plane.Queue.{of_user, is_slot, assigns}
use rmvpn.Plane.Hub.Connection.{is_unset}
use rmvpn.Plane.Plans.{has_code}
use rmvpn.Plane.Roles.{queue_device_command}
use rmvpn.Plane.Wallet.{flattened}
use rmvpn.Exec.{
  Method, pure, guard, or_raise, attempt, select, update, update_checked, handled, ◌>>=◌, ◌>>◌,
}

-- What was drawn for a new device.
pub record Draw : Type 0 where
  pub device_id : String
  pub credential : String
  pub token : String

abbrev pub is_live : String → SlotRow → Bool
is_live user d = d.user_id == user && is_unset d.revoked_at

abbrev pub live_count : String → Plane → ℕ
live_count user p = length (keep (is_live user) p.devices)

abbrev pub limit_of : Option PlanRow → Option ℕ
limit_of none = none
limit_of (some plan) = some plan.device_limit

abbrev pub plan_limit : Plane → Option SubscriptionRow → Option ℕ
plan_limit p none = none
plan_limit p (some s) = limit_of (find (has_code s.plan_code) p.plans)

abbrev pub limit_and_count : String → ℕ → Option ℕ → Option (ℕ × ℕ)
limit_and_count user count none = none
limit_and_count user count (some limit) = some (limit, count)

-- The plan's limit, and the user's devices that are not revoked.
abbrev pub slots : String → Plane → Option (ℕ × ℕ)
slots user p =
    limit_and_count user (live_count user p) (plan_limit p (find (of_user user) p.subscriptions))

abbrev pub at_least : ℕ → ℕ → ℕ
at_least a b = if leb a b then b else a

-- COALESCE(max(slot),0)
unfoldable pub max_slot : String → List SlotRow → ℕ
max_slot user [] = 0
max_slot user (d ∷ ds) =
    let rest = max_slot user ds in if d.user_id == user then at_least d.slot rest else rest

-- The primary key and the UNIQUE columns.
abbrev pub collides : Crypto → Draw → SlotRow → Bool
collides c draw d =
    d.device_id == draw.device_id
    || d.credential_hash == c.sha256 draw.credential
    || d.subscription_token_hash == c.sha256 draw.token

unfoldable pub insert_device : Crypto → String → Draw → Plane → Result Plane
unfolding max_slot
insert_device c user draw p =
    if any (collides c draw) p.devices
    then err constraint_violated
    else ok (record p { devices = p.devices ++ row ∷ [] })
  where
    row : SlotRow
    row = record {
      device_id = draw.device_id;
      user_id = user;
      slot = max_slot user p.devices + 1;
      hwid_hmac = none;
      credential_hash = c.sha256 draw.credential;
      subscription_token_hash = c.sha256 draw.token;
      last_bound_at = none;
      last_seen_at = none;
      revoked_at = none;
    }

unfoldable pub create_body : Crypto → String → Draw → Method Plane (Unit {0})
unfolding select update_checked insert_device
create_body c user draw = do
  found ← attempt (select (slots user))
  s ← or_raise (problem 409 "device-limit") (flattened found)
  guard (ltb s.1 s.0) (problem 409 "device-limit")
  update_checked (insert_device c user draw)

unfoldable pub create_device : Crypto → String → Option Runes → Draw → Method Plane (Unit {0})
unfolding handled create_body trim_space
create_device c user name draw = do
  n ← or_raise (problem 400 "invalid") name
  guard (not (is_empty (trim_space n))) (problem 400 "invalid")
  handled (problem 500 "db") (problem 500 "db") (create_body c user draw)

abbrev pub owned_slot : String → String → SlotRow → Bool
owned_slot user device d = is_slot device d && is_live user d

abbrev pub bound_recently : Time → Option Time → Bool
bound_recently now none = false
bound_recently now (some t) = after (t + 24 * hour) now

abbrev pub rebound : Crypto → String → SlotRow → SlotRow
rebound c credential d = record d {
  credential_hash = c.sha256 credential;
  hwid_hmac = none;
  last_bound_at = none;
}

abbrev pub has_hash : Crypto → String → String → SlotRow → Bool
has_hash c device credential d = not (is_slot device d) && d.credential_hash == c.sha256 credential

unfoldable pub rotate_credential : Crypto → String → String → Plane → Result Plane
rotate_credential c device credential p =
    if any (has_hash c device credential) p.devices
    then err constraint_violated
    else ok (record p { devices = change (is_slot device) (rebound c credential) p.devices })

abbrev pub drop_leases : String → Plane → Plane
drop_leases device p = record p {
  quota_leases = keep (λ (l : LeaseRow). not (l.lease.device_id == device)) p.quota_leases;
}

abbrev pub unprovisioned : String → Plane → Plane
unprovisioned device p = record p {
  node_assignments =
      change (assigns device) (λ (a : AssignmentRow). record a { provisioned_at = none })
        p.node_assignments;
}

unfoldable pub rebind_body : Crypto → Time → String → String → String → Method Plane (Unit {0})
unfolding select update_checked rotate_credential update
rebind_body c now user device credential = do
  found ← attempt (select (λ p. find (owned_slot user device) p.devices))
  d ← or_raise (problem 404 "device") (flattened found)
  guard (not (bound_recently now d.last_bound_at)) (problem 429 "rebind-limit")
  update_checked (rotate_credential c device credential)
  update (drop_leases device)
  update (unprovisioned device)

unfoldable pub rebind_device : Crypto → Time → String → String → String → Method Plane (Unit {0})
unfolding handled rebind_body queue_device_command
rebind_device c now user device credential = do
  handled (problem 500 "db") (problem 500 "db") (rebind_body c now user device credential)
  attempt (queue_device_command now device (device_revoke device "credential rotation"))
  pure tt
