-- ===== src/Policy/Access.antt =====
-- Where a session may connect to.
use rmvpn.Base.{
  ◌≡◌, ◌<◌, refl, String, Bool, true, false, Option, none, some, find, arith, ◌⊎◌, if◌then◌else◌,
}
use rmvpn.Base.Outcome.{Result, ok, err}
use rmvpn.Base.Text.{Runes}
use rmvpn.Base.Time.{Time, after}
use rmvpn.Model.{Device, PlanPolicy, policy_of}
use rmvpn.Node.Tables.{DeviceRow}
use rmvpn.Exec.{World, M, spent, follow, pure}
use rmvpn.Store.Devices.{has_id, scan_device, scanned, device_by_id}
use rmvpn.Policy.{Verdict, allowed, denied, decide_peer, authorize_device, authorize}
use rmvpn.Policy.Torrent.{is_p2p}

-- What lets a connection of a device through.
pub record MayReach (now : Time) (d : Device) (p2p : Bool) : Type 0 where
  pub base : PlanPolicy
  pub known : policy_of d.plan ≡ some base
  pub peer_rule :
      p2p ≡ true
      → ((now < d.override_expires) × (d.override_p2p ≡ true))
        ⊎ ((after d.override_expires now ≡ false) × (base.p2p_allowed ≡ true))

peer_allowed :
    (now : Time) (d : Device) (o : Option PlanPolicy) (p2p : Bool)
    → policy_of d.plan ≡ o
    → decide_peer now d o p2p ≡ allowed
    → MayReach now d p2p
unfolding decide_peer
peer_allowed now d none p2p known e = cc
peer_allowed now d (some base) p2p known e = record {
  base = base;
  known = known;
  peer_rule = λ h. ground arith;
}

answered :
    (r : Result Bool) (v : World) {verdict : Verdict}
    → (follow (λ hit. pure (if hit then denied "compliance_blocked" else verdict)) r v).0
      ≡ ok allowed
    → (r ≡ ok false) × (verdict ≡ allowed)
answered (ok true) v e = cc
answered (ok false) v e = (refl, ground arith)
answered (err x) v e = cc

module _ (blocked : Runes → M Bool) (now : Time) (id : String) (address payload : Runes)
    (w : World) where
  let_through :
      (d : Device) (v : World)
      → (authorize_device blocked now (some d) address payload v).0 ≡ ok allowed
      → (d.active ≡ true)
        × ((blocked address v).0 ≡ ok false)
        × (decide_peer now d (policy_of d.plan) (is_p2p address payload) ≡ allowed)
  unfolding authorize_device
  let_through d v e =
      let a : d.active ≡ true = ground arith in
      let r = answered (blocked address v).0 (blocked address v).1 (ground arith) in (a, r.0, r.1)

  row_allowed :
      (v : World) (o : Option DeviceRow) {p : Option DeviceRow}
      → p ≡ o
      → (authorize_device blocked now (scanned o) address payload v).0 ≡ ok allowed
      → (row : DeviceRow) × (p ≡ some row)
        × (row.active ≡ true)
        × ((blocked address v).0 ≡ ok false)
        × MayReach now (scan_device row) (is_p2p address payload)
  row_allowed v none found e = unfold authorize_device in cc e
  row_allowed v (some row) found e =
      let (a, b, q) = let_through (scan_device row) v e in
      (row, found, a, b, peer_allowed now (scan_device row) _ (is_p2p address payload) refl q)

  -- Whatever fails, a connection is let through only for a device that is stored and active, to an
  -- address that the compliance filter answered for and did not block, and as BitTorrent only with
  -- an override in force that allows it or, without one, a plan that does.
  pub authorize_sound :
      (authorize blocked now id address payload w).0 ≡ ok allowed
      → (row : DeviceRow) × (find (has_id id) w.held.store.devices ≡ some row)
        × (row.active ≡ true)
        × ((blocked address (spent w)).0 ≡ ok false)
        × MayReach now (scan_device row) (is_p2p address payload)
  unfolding authorize device_by_id
  authorize_sound e = row_allowed (spent w) _ refl (ground arith)
