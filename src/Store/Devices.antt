-- ===== src/Store/Devices.antt =====
-- store.go: the table `devices`.
use rmvpn.Base.{
  String, Bool, true, false, not, ◌&&◌, Option, none, some, List, [], ◌∷◌, ◌++◌, map, ◌==◌, eqb,
  any, find, change, sort_by, if◌then◌else◌,
}
use rmvpn.Base.Int.{ℤ, pos}
use rmvpn.Base.Time.{Time, unix, of_unix, unix_epoch}
use rmvpn.Base.Outcome.{Result, ok, err, constraint_violated}
use rmvpn.Model.{Device}
use rmvpn.Node.Tables.{Store, DeviceRow}
use rmvpn.Exec.{M, query, exec, exec_checked}
use Prim.Native.String.{compare}
use Prim.Native.Nat.{Ordering}

-- VALUES(…) of the INSERT; the override columns take their defaults.
abbrev pub inserted : Device → DeviceRow
inserted d = record {
  device_id = d.id;
  credential_hash = d.credential_hash;
  plan = d.plan;
  active = d.active;
  subscription_ends = unix d.subscription_ends;
  period_ends = unix d.period_ends;
  quota_bytes = d.quota_bytes;
  used_bytes = d.used_bytes;
  lease_bytes = d.lease_bytes;
  lease_expires = unix d.lease_expires;
  override_up_bps = pos 0;
  override_down_bps = pos 0;
  override_p2p = false;
  override_expires = unix_epoch;
}

-- DO UPDATE SET …: the usage is kept within a period, and the override columns are not named.
abbrev pub updated : Device → DeviceRow → DeviceRow
updated d row = record row {
  credential_hash = d.credential_hash;
  plan = d.plan;
  active = d.active;
  subscription_ends = unix d.subscription_ends;
  period_ends = unix d.period_ends;
  quota_bytes = d.quota_bytes;
  used_bytes = if eqb row.period_ends (unix d.period_ends) then row.used_bytes else d.used_bytes;
  lease_bytes = d.lease_bytes;
  lease_expires = unix d.lease_expires;
}

abbrev pub has_id : String → DeviceRow → Bool
has_id id row = row.device_id == id

abbrev pub has_hash : String → DeviceRow → Bool
has_hash hash row = row.credential_hash == hash

-- Another device holds the credential: the UNIQUE column refuses the statement.
abbrev pub taken : Device → DeviceRow → Bool
taken d row = not (row.device_id == d.id) && row.credential_hash == d.credential_hash

unfoldable pub upsert_rows : Device → List DeviceRow → List DeviceRow
upsert_rows d rows =
    if any (has_id d.id) rows
    then change (has_id d.id) (updated d) rows
    else rows ++ inserted d ∷ []

abbrev pub upsert_checked : Device → Store → Result Store
upsert_checked d s =
    if any (taken d) s.devices
    then err constraint_violated
    else ok (record s { devices = upsert_rows d s.devices })

unfoldable pub upsert_device : Device → M (Unit {0})
unfolding exec_checked upsert_rows
upsert_device d = exec_checked (upsert_checked d)

abbrev pub scan_device : DeviceRow → Device
scan_device row = record {
  id = row.device_id;
  credential_hash = row.credential_hash;
  plan = row.plan;
  active = row.active;
  subscription_ends = of_unix row.subscription_ends;
  period_ends = of_unix row.period_ends;
  quota_bytes = row.quota_bytes;
  used_bytes = row.used_bytes;
  lease_bytes = row.lease_bytes;
  lease_expires = of_unix row.lease_expires;
  override_up_bps = row.override_up_bps;
  override_down_bps = row.override_down_bps;
  override_p2p = row.override_p2p;
  override_expires = of_unix row.override_expires;
}

abbrev pub scanned : Option DeviceRow → Option Device
scanned none = none
scanned (some row) = some (scan_device row)

unfoldable pub device_by_credential_hash : String → M (Option Device)
unfolding query
device_by_credential_hash hash = query (λ s. scanned (find (has_hash hash) s.devices))

unfoldable pub device_by_id : String → M (Option Device)
unfolding query
device_by_id id = query (λ s. scanned (find (has_id id) s.devices))

abbrev pub id_le : DeviceRow → DeviceRow → Bool
id_le a b = elim (compare a.device_id b.device_id) [ Ordering.gt ↦ false | _ ↦ true ]

unfoldable pub devices : M (List Device)
unfolding query sort_by
devices = query (λ s. map scan_device (sort_by id_le s.devices))

unfoldable pub apply_policy_override : String → ℤ → ℤ → Bool → Time → M (Unit {0})
unfolding exec
apply_policy_override id up down p2p expires =
    exec (λ s. record s { devices = change (has_id id) overridden s.devices })
  where
    overridden : DeviceRow → DeviceRow
    overridden row = record row {
      override_up_bps = up;
      override_down_bps = down;
      override_p2p = p2p;
      override_expires = unix expires;
    }

unfoldable pub revoke_device : String → M (Unit {0})
unfolding exec
revoke_device id = exec (λ s. record s {
  devices = change (has_id id) (λ row. record row { active = false }) s.devices;
})
