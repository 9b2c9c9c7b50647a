-- ===== src/Plane/Provision.antt =====
-- internal/controlplane/provisioning.go, and what runs it: a user's devices (app.go) and the renewal
-- of quota leases (workers.go). UUIDs are arguments.
pub mod Frame
pub mod Granted
pub mod Grants
use rmvpn.Base.{
  ◌+◌, ◌*◌, String, Bool, true, false, not, ◌&&◌, Option, none, some, List, [], ◌∷◌, ◌++◌, ◌==◌,
  any, find, keep, map, if◌then◌else◌,
}
use rmvpn.Base.Int.{ℤ, pos, ◌+ℤ◌, ◌-ℤ◌, sub64, is_int64, ltb_ℤ, leb_ℤ}
use rmvpn.Base.Time.{Time, after, hour}
use rmvpn.Base.Outcome.{
  Result, ok, err, no_rows, constraint_violated, signing_key_missing, subscription_inactive,
  no_quota_remains,
}
use rmvpn.Crypto.{Crypto}
use rmvpn.Protocol.{QuotaLease, sign_lease}
use rmvpn.Billing.{reservable_bytes}
use rmvpn.Plane.Tables.{
  Plane, SlotRow, SubscriptionRow, AssignmentRow, LeaseRow, device_upsert, quota_lease,
}
use rmvpn.Plane.Queue.{of_user, is_slot, queue}
use rmvpn.Plane.Hub.Connection.{device_order, is_usable, is_active_user, is_unset}
use rmvpn.Exec.{
  Method, pure, raise, guard, or_raise, select, update, update_checked, transaction, ◌>>=◌, ◌>>◌,
}

abbrev pub with_subscription : SlotRow → Option SubscriptionRow → Option (SlotRow × SubscriptionRow)
with_subscription d none = none
with_subscription d (some s) = some (d, s)

abbrev pub joined_with : Plane → Option SlotRow → Option (SlotRow × SubscriptionRow)
joined_with p none = none
joined_with p (some d) =
    if is_unset d.revoked_at
    then with_subscription d (find (of_user d.user_id) p.subscriptions)
    else none

-- FROM devices d JOIN subscriptions s … WHERE d.id=… AND d.revoked_at IS NULL
unfoldable pub joined : String → Plane → Option (SlotRow × SubscriptionRow)
joined device p = joined_with p (find (is_slot device) p.devices)

abbrev pub is_active_lease : Time → String → LeaseRow → Bool
is_active_lease now device row = row.lease.device_id == device && after row.lease.expires_at now

unfoldable pub sum_reserved : Time → String → List LeaseRow → ℤ
unfolding ◌+ℤ◌ ◌-ℤ◌
sum_reserved now device [] = pos 0
sum_reserved now device (row ∷ rows) =
    let rest = sum_reserved now device rows in
    if is_active_lease now device row then rest +ℤ (row.lease.bytes -ℤ row.consumed_bytes) else rest

-- COALESCE(sum(bytes-consumed_bytes),0), a numeric; 0 where it does not scan into an int64.
abbrev pub active_reservations : Time → String → Plane → ℤ
active_reservations now device p =
    let sum = sum_reserved now device p.quota_leases in if is_int64 sum then sum else pos 0

abbrev pub has_lease : String → LeaseRow → Bool
has_lease id row = row.lease.lease_id == id

-- INSERT INTO quota_leases: the primary key, and CHECK (bytes >= 0)
unfoldable pub insert_lease : QuotaLease → Plane → Result Plane
insert_lease l p =
    if any (has_lease l.lease_id) p.quota_leases
    then err constraint_violated
    else if ltb_ℤ l.bytes (pos 0)
    then err constraint_violated
    else ok (record p {
      quota_leases = p.quota_leases ++ record { lease = l; consumed_bytes = pos 0 } ∷ [];
    })

-- What the App has: its keys and packages, and the UUID that it draws for a device's lease.
-- `signing_key` is the configured quota key where it has the size of one.
pub record Signer : Type 0 where
  pub crypto : Crypto
  pub lease_bytes : String → String → String → ℤ → Time → Time → String → String
  pub signing_key : Option String
  pub new_lease_id : String → String

abbrev pub is_zero : ℤ → Bool
is_zero z = leb_ℤ z (pos 0) && leb_ℤ (pos 0) z

abbrev pub is_owned : String → Option SlotRow → Bool
is_owned user none = false
is_owned user (some d) = d.user_id == user && is_unset d.revoked_at

abbrev pub pair_of : AssignmentRow → String × String
pair_of r = (r.device_id, r.node_id)

abbrev pub user_assignments : String → Plane → List (String × String)
user_assignments user p =
    map pair_of
      (keep (λ r. is_owned user (find (is_slot r.device_id) p.devices)) p.node_assignments)

abbrev pub usable_row : Plane → Option (SlotRow × SubscriptionRow) → Bool
usable_row p none = false
usable_row p (some row) = is_active_user row.0.user_id p && is_usable row.1.status

module _ (a : Signer) (now : Time) where
  unfoldable pub new_lease : String → String → String → ℤ → QuotaLease
  new_lease key device node grant = sign_lease a.crypto a.lease_bytes key (record {
    lease_id = a.new_lease_id device;
    device_id = device;
    node_id = node;
    bytes = grant;
    issued_at = now;
    expires_at = now + 24 * hour;
    key_id = "quota-v1";
    signature = "";
  })

  -- A new lease, and the two commands.
  unfoldable pub grant_lease :
      String → String → String → SlotRow → SubscriptionRow → ℤ → Method Plane (Unit {0})
  unfolding update_checked update insert_lease new_lease queue
  grant_lease key device node d s grant = do
    guard (not (is_zero grant)) no_quota_remains
    update_checked (insert_lease (new_lease key device node grant))
    update (λ p.
        queue now node (quota_lease (new_lease key device node grant))
          (queue now node (device_upsert (device_order a.crypto d s)) p))

  unfoldable pub provision_row :
      String → String → String → SlotRow → SubscriptionRow → ℤ → Method Plane (Unit {0})
  unfolding update queue reservable_bytes sub64 grant_lease
  provision_row key device node d s active =
      if ltb_ℤ (pos 0) active
      then update (queue now node (device_upsert (device_order a.crypto d s)))
      else grant_lease key device node d s
          (reservable_bytes (sub64 s.quota_bytes s.used_bytes) active (pos 1_000_000_000))

  unfoldable pub provision_body : String → String → String → Method Plane (Unit {0})
  unfolding select joined sum_reserved provision_row
  provision_body key device node = do
    found ← select (joined device)
    row ← or_raise no_rows found
    guard (is_usable row.1.status) subscription_inactive
    active ← select (active_reservations now device)
    provision_row key device node row.0 row.1 active

  unfoldable pub provision_device : String → String → Method Plane (Unit {0})
  unfolding transaction provision_body
  provision_device device node = do
    key ← or_raise signing_key_missing a.signing_key
    transaction (provision_body key device node)

  -- The loops over (device, node) pairs: the first error ends them.
  unfoldable pub provision_all : List (String × String) → Method Plane (Unit {0})
  unfolding provision_device
  provision_all [] = pure tt
  provision_all (item ∷ items) = do provision_device item.0 item.1; provision_all items

  unfoldable pub provision_user_devices : String → Method Plane (Unit {0})
  unfolding select provision_all
  provision_user_devices user = do items ← select (user_assignments user); provision_all items

  abbrev pub is_due_renewal : Plane → AssignmentRow → Bool
  is_due_renewal p r =
      usable_row p (joined r.device_id p)
      && not (any (is_active_lease now r.device_id) p.quota_leases)

  unfoldable pub renew_quota_leases : Method Plane (Unit {0})
  unfolding select provision_all joined
  renew_quota_leases = do
    due ← select (λ p. map pair_of (keep (is_due_renewal p) p.node_assignments))
    provision_all due
