-- ===== src/Plane/Provision/Grants.antt =====
-- What provisioning grants, and what the node makes of it.
use rmvpn.Base.{
  ◌+◌, ◌*◌, ◌≤◌, ◌<◌, String, Bool, true, false, not, Option, none, some, [], ◌∷◌, ◌++◌, ◌≡◌, ◌≢◌,
  refl, sym, ap, subst, ◌∙◌, arith, if◌then◌else◌,
}
use rmvpn.Base.Int.{ℤ, pos, ◌<ℤ◌, sub64, ltb_ℤ}
use rmvpn.Base.Time.{Time, hour}
use rmvpn.Base.Outcome.{ok, no_rows, signing_key_missing}
use rmvpn.Billing.{reservable_bytes}
use rmvpn.Protocol.{QuotaLease, verify_lease}
use rmvpn.Protocol.Leases.{verify-sign_lease}
use rmvpn.Plane.Tables.{Plane, SlotRow, SubscriptionRow, Order, quota_lease, device_upsert}
use rmvpn.Plane.Hub.Connection.{device_order, is_usable}
use rmvpn.Plane.Queue.{queue}
use rmvpn.Plane.Provision.{
  Signer, insert_lease, new_lease, grant_lease, provision_row, provision_body, provision_device,
  joined, sum_reserved, active_reservations, is_zero,
}
use rmvpn.Exec.{Run, Method, spent, ◌>>=◌, update, update_checked, select, or_raise, transaction}
use rmvpn.Exec.Success.{
  >>=-eq-ok, select-eq-ok, update-eq-ok, update_checked-eq-ok, guarded, opted, transaction_result,
}
use rmvpn.Plane.Provision.Granted.{
  reserved_bytes, billion, Grant, no_lease, leased, sum-Reserved, scanned_sum, usable_status,
  joined-Joins,
}

queued_leases :
    (now : Time) (node : String) (first second : Order) (p : Plane)
    → (queue now node second (queue now node first p)).quota_leases ≡ p.quota_leases
unfolding queue
queued_leases now node first second p = refl

queued_lease :
    (now : Time) (node : String) (order : Order) (p : Plane)
    → (queue now node order p).quota_leases ≡ p.quota_leases
unfolding queue
queued_lease now node order p = refl

inserted_lease :
    (l : QuotaLease) (p q : Plane)
    → insert_lease l p ≡ ok q
    → q.quota_leases ≡ p.quota_leases ++ record { lease = l; consumed_bytes = pos 0 } ∷ []
unfolding insert_lease
inserted_lease l p q h = ground arith

module _ (a : Signer) (now : Time) (key device node : String) where
  grant_lease_leases :
      (d : SlotRow) (s : SubscriptionRow) (bytes : ℤ) (w : Run Plane) {u : Unit {0}}
      → (grant_lease a now key device node d s bytes w).0 ≡ ok u
      → (is_zero bytes ≡ false)
        × ((grant_lease a now key device node d s bytes w).1.held.quota_leases
            ≡ w.held.quota_leases
              ++ record { lease = new_lease a now key device node bytes; consumed_bytes = pos 0 }
                ∷ [])
  unfolding grant_lease
  grant_lease_leases d s bytes w h =
      let (g, e, n) = guarded (not (is_zero bytes)) _ _ w h in
      let l = new_lease a now key device node bytes in
      let insert = update_checked (insert_lease l) in
      let (t, b, c, m) = >>=-eq-ok insert _ w e in
      let v : Run Plane = (insert w).1 in
      let orders : Plane → Plane = λ p.
        queue now node (quota_lease l)
          (queue now node (device_upsert (device_order a.crypto d s)) p) in
      let two =
        ap (λ (p : Plane). p.quota_leases) (update-eq-ok orders v c)
        ∙ queued_leases now node (device_upsert (device_order a.crypto d s)) (quota_lease l)
            v.held in
      let row = inserted_lease l w.held v.held (update_checked-eq-ok (insert_lease l) w b) in
      (ground (arith, g), ap (λ (x : Run Plane). x.held.quota_leases) (n ∙ m) ∙ two ∙ row)

  provision_row-Grant :
      (d : SlotRow) (s : SubscriptionRow) (w : Run Plane) {u : Unit {0}}
      → a.signing_key ≡ some key
      → joined device w.held ≡ some (d, s)
      → is_usable s.status ≡ true
      → let active = active_reservations now device w.held in
        (provision_row a now key device node d s active w).0 ≡ ok u
        → Grant a now device node w.held (provision_row a now key device node d s active w).1.held
  unfolding provision_row new_lease
  provision_row-Grant d s w k j us h =
      let active = active_reservations now device w.held in
      let bytes = reservable_bytes (sub64 s.quota_bytes s.used_bytes) active (pos 1_000_000_000) in
      let order = device_upsert (device_order a.crypto d s) in
      picked (ltb_ℤ (pos 0) active) (update (queue now node order))
        (grant_lease a now key device node d s bytes) w
        (λ u e. no_lease (
          ap (λ (p : Plane). p.quota_leases) (update-eq-ok (queue now node order) w e)
          ∙ queued_lease now node order w.held))
        (λ u free e.
          let (some_bytes, rows) = grant_lease_leases d s bytes w e in
          let (positive, most, left) =
            reserved_bytes (sub64 s.quota_bytes s.used_bytes) active billion some_bytes in
          let (listed, named, unrevoked, subscribed, owned) = joined-Joins device w.held d s j in
          leased (record {
            key = key;
            slot = d;
            subscription = s;
            reserved = sum_reserved now device w.held.quota_leases;
            active = active;
            bytes = bytes;
            configured = k;
            listed = listed;
            named = named;
            unrevoked = unrevoked;
            subscribed = subscribed;
            owned = owned;
            usable = usable_status s.status us;
            summed = sum-Reserved now device w.held.quota_leases;
            scanned = scanned_sum (sum_reserved now device w.held.quota_leases);
            unreserved = ground (arith, free);
            positive = positive;
            at_most = most;
            left = left;
            added = rows;
          }))
        h
    where
      picked :
          (b : Bool) (m n : Method Plane (Unit {0})) (v : Run Plane)
          → ((u : Unit {0}) → (m v).0 ≡ ok u → Grant a now device node w.held (m v).1.held)
          → ((u : Unit {0})
              → b ≡ false
              → (n v).0 ≡ ok u
              → Grant a now device node w.held (n v).1.held)
          → {u : Unit {0}} → ((if b then m else n) v).0 ≡ ok u
          → Grant a now device node w.held ((if b then m else n) v).1.held
      picked true m n v x y e = x _ e
      picked false m n v x y e = y _ refl e

  provision_body-Grant :
      (w : Run Plane) (u : Unit {0})
      → a.signing_key ≡ some key
      → (provision_body a now key device node w).0 ≡ ok u
      → Grant a now device node w.held (provision_body a now key device node w).1.held
  unfolding provision_body
  provision_body-Grant w u k h =
      let (found, b, c, n) = >>=-eq-ok (select (joined device)) _ w h in
      let v : Run Plane = (select (joined device) w).1 in
      let (f, same) = select-eq-ok (joined device) w b in
      let (row, o, e, n2) = opted no_rows found _ v c in
      let (us, e2, n3) = guarded (is_usable row.1.status) _ _ v e in
      let m = select (active_reservations now device) in
      let (active, b2, c2, n4) = >>=-eq-ok m _ v e2 in
      let x : Run Plane = (m v).1 in
      let (f2, same2) = select-eq-ok (active_reservations now device) v b2 in
      let held = same2 ∙ same in
      let same_sum : active ≡ active_reservations now device x.held =
        sym f2 ∙ ap (λ p. active_reservations now device p) (sym same2) in
      let ran =
        subst (λ z. (provision_row a now key device node row.0 row.1 z x).0 ≡ ok u) same_sum c2 in
      let grant = provision_row-Grant row.0 row.1 x k (ap (joined device) held ∙ f ∙ o) us ran in
      let last =
        subst
          (λ z.
            Grant a now device node x.held
              (provision_row a now key device node row.0 row.1 z x).1.held)
          (sym same_sum) grant in
      subst (λ (y : Run Plane). Grant a now device node w.held y.held) (sym (n ∙ n2 ∙ n3 ∙ n4))
        (subst
          (λ p.
            Grant a now device node p
              (provision_row a now key device node row.0 row.1 active x).1.held)
          held last)

signed-Grant :
    (a : Signer) (now : Time) (device node : String) (o : Option String) (w : Run Plane)
    → a.signing_key ≡ o
    → Grant a now device node w.held
        ((or_raise signing_key_missing o >>= λ key.
            transaction (provision_body a now key device node))
          w).1.held
signed-Grant a now device node none w k = no_lease refl
signed-Grant a now device node (some key) w k =
    transaction_result (Grant a now device node w.held) (provision_body a now key device node) w _
      (λ u e h. provision_body-Grant a now key device node (spent w) u k e) refl (no_lease refl)

-- Whatever fails, provisioning a device leaves the leases as they were, or adds one lease, signed
-- with the configured key, for a day, to a device that is not revoked and whose user's subscription
-- is active or in grace. The device's own leases in force have then no bytes left in sum, or a sum
-- past 64 bits, which is taken for none; the new one has more than 0 and at most a billion bytes, and
-- no more than the subscription's quota less its used bytes and less that sum. The leases of the
-- user's other devices do not count.
pub provision_device_sound :
    (a : Signer) (now : Time) (device node : String) (w : Run Plane)
    → Grant a now device node w.held (provision_device a now device node w).1.held
unfolding provision_device
provision_device_sound a now device node w = signed-Grant a now device node a.signing_key w refl

-- A lease that provisioning grants, to a device and a node with an ID and with a drawn ID that is not
-- empty, is accepted by the node under the public key of the configured key, for a day.
pub new_lease_verifies :
    (a : Signer) (now t : Time) (key device node : String) (bytes : ℤ)
    → a.new_lease_id device ≢ ""
    → device ≢ ""
    → node ≢ ""
    → pos 0 <ℤ bytes
    → now ≤ t
    → t < now + 24 * hour
    → verify_lease a.crypto a.lease_bytes
        (a.crypto.public_key key)
        t
        (new_lease a now key device node bytes)
      ≡ ok tt
unfolding new_lease
new_lease_verifies a now t key device node bytes id d n positive from until =
    verify-sign_lease a.crypto a.lease_bytes key t _ (record {
      named = id;
      for_device = d;
      for_node = n;
      nonnegative = omega (arith, positive);
      unexpired = until;
      issued = omega (arith, from);
      within_day = omega arith;
    })
