-- ===== src/Control/LeaseUpdates.antt =====
-- What a quota lease changes.
use rmvpn.Base.{
  ◌≡◌, ◌≢◌, refl, String, true, Option, none, some, arith, eq_iff, ◌==◌, find, ap, sym, ◌⊎◌, ◌∙◌,
}
use rmvpn.Base.Time.{Time, unix}
use rmvpn.Base.Outcome.{ok, quota_key_missing, quota_key_invalid, lease_device_missing}
use rmvpn.Model.{Device}
use rmvpn.Node.Tables.{DeviceRow}
use rmvpn.Protocol.{QuotaLease, verify_lease}
use rmvpn.Protocol.Leases.{verify_lease_iff}
use rmvpn.Crypto.{is_public_key}
use rmvpn.Exec.{World, dropped, attempt, query, call}
use rmvpn.Exec.Success.{guarded, opted, lifted}
use rmvpn.Store.State.{lookup, state_value}
use rmvpn.Store.Devices.{has_id, device_by_id, scan_device, scanned}
use rmvpn.Control.Handlers.{Client, flat, text_or_empty, setting_or, handle_lease}

setting_value :
    (a b v : String) (w : World) (o : Option (Option String))
    → (attempt (setting_or a b) w).0 ≡ ok o
    → flat o ≡ some v
    → ((lookup a w.held.store.state ≡ some v) ⊎ (lookup b w.held.store.state ≡ some v))
      × ((attempt (setting_or a b) w).1.held ≡ w.held)
unfolding setting_or state_value query call
setting_value a b v w o e f = (ground arith, ground arith)

node_id_value :
    (id : String) (w : World) (o : Option (Option String))
    → (attempt (state_value "node_id") w).0 ≡ ok o
    → id ≢ ""
    → (id == text_or_empty o) ≡ true
    → (lookup "node_id" w.held.store.state ≡ some id)
      × ((attempt (state_value "node_id") w).1.held ≡ w.held)
unfolding state_value query call
node_id_value id w none e n q = absurd (n ((eq_iff id "").0 q))
node_id_value id w (some none) e n q = absurd (n ((eq_iff id "").0 q))
node_id_value id w (some (some v)) e n q = (ground (arith, eq_iff id v), ground arith)

device_value :
    (id : String) (w : World) (o : Option (Option Device)) (d : Device)
    → (attempt (device_by_id id) w).0 ≡ ok o
    → flat o ≡ some d
    → (scanned (find (has_id id) w.held.store.devices) ≡ some d)
      × ((attempt (device_by_id id) w).1.held ≡ w.held)
unfolding device_by_id query call
device_value id w o d e f = (ground arith, ground arith)

scanned_row :
    (o : Option DeviceRow) {d : Device}
    → scanned o ≡ some d
    → (row : DeviceRow) × (o ≡ some row) × (d ≡ scan_device row)
scanned_row none e = cc
scanned_row (some row) e = (row, refl, ground arith)

abbrev pub with_lease : QuotaLease → DeviceRow → DeviceRow
with_lease l row = record row { lease_bytes = l.bytes; lease_expires = unix l.expires_at }

-- Where an accepted lease comes from: a 32-byte key of the settings that verifies it, for this node
-- and a device that is stored.
pub record IsAccepted (c : Client) (now : Time) (l : QuotaLease) (w : World) : Type 0 where
  pub encoded : String
  pub key : String
  pub setting :
      (lookup "quota_public_key" w.held.store.state ≡ some encoded)
      ⊎ (lookup "controller_public_key" w.held.store.state ≡ some encoded)
  pub decoded : c.crypto.decode encoded ≡ some key
  pub size : is_public_key key ≡ true
  pub verified : verify_lease c.crypto c.lease_bytes key now l ≡ ok tt
  pub own : lookup "node_id" w.held.store.state ≡ some l.node_id
  pub row : DeviceRow
  pub stored : find (has_id l.device_id) w.held.store.devices ≡ some row

module _ (c : Client) (now : Time) (l : QuotaLease) (w : World) where
  -- A lease whose handling succeeds, whatever else fails, is signed for this node by the key that
  -- the settings name, and is for a device that the node has.
  pub handle_lease_sound : (handle_lease c now l w).0 ≡ ok tt → IsAccepted c now l w
  unfolding handle_lease
  handle_lease_sound e =
      let first = attempt (setting_or "quota_public_key" "controller_public_key") in
      let v : World = (first w).1 in
      let o = dropped (setting_or "quota_public_key" "controller_public_key" w).0 in
      let (encoded, f1, e2, n2) = opted quota_key_missing (flat o) _ v e in
      let (from, same) = setting_value _ _ encoded w o refl f1 in
      let (key, f2, e3, n3) = opted quota_key_invalid (c.crypto.decode encoded) _ v e2 in
      let (size, e4, n4) = guarded (is_public_key key) _ _ v e3 in
      let (ver, e5, n5) = lifted (verify_lease c.crypto c.lease_bytes key now l) _ v e4 in
      let id = dropped (state_value "node_id" v).0 in
      let v2 : World = (attempt (state_value "node_id") v).1 in
      let (own, e7, n7) = guarded (l.node_id == text_or_empty id) _ _ v2 e5 in
      let v3 : World = (attempt (device_by_id l.device_id) v2).1 in
      let found = dropped (device_by_id l.device_id v2).0 in
      let (d, f3, e9, n9) = opted lease_device_missing (flat found) _ v3 e7 in
      let named = ((verify_lease_iff c.crypto c.lease_bytes key now l).0 ver).0.for_node in
      let (node_id, same2) = node_id_value l.node_id v id refl named own in
      let (device, same3) = device_value l.device_id v2 found d refl f3 in
      let (row, stored, scan) = scanned_row _ device in
      record {
        encoded = encoded;
        key = key;
        setting = from;
        decoded = f2;
        size = size;
        verified = ver;
        own = ap (λ n. lookup "node_id" n.store.state) (sym same) ∙ node_id;
        row = row;
        stored = ap (λ n. find (has_id l.device_id) n.store.devices) (sym (same2 ∙ same)) ∙ stored;
      }
