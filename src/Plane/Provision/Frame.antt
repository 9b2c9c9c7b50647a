-- ===== src/Plane/Provision/Frame.antt =====
-- Provisioning changes the queue and the leases alone.
use rmvpn.Base.{String, List, [], ◌∷◌, ◌≡◌}
use rmvpn.Base.Time.{Time}
use rmvpn.Base.Outcome.{ok}
use rmvpn.Protocol.{QuotaLease}
use rmvpn.Plane.Tables.{Plane, Order}
use rmvpn.Plane.Queue.{queue}
use rmvpn.Plane.Provision.{
  Signer, insert_lease, grant_lease, provision_row, provision_body, provision_device, provision_all,
  provision_user_devices,
}
use rmvpn.Exec.{update, update_checked}
use rmvpn.Exec.Keeps.{
  Keeps, Keeps-update, Keeps-update_checked, Keeps-pure, Keeps-bind, keeps_rules,
}
use rmvpn.Exec.Success.{Keeps-or_raise}

-- A predicate that does not look at the queue and the leases.
pub record IsBlind (P : Plane → Type 0) : Type 0 where
  pub queued :
      (now : Time) (node : String) (order : Order) (p : Plane) → P p → P (queue now node order p)
  pub leased : (l : QuotaLease) (p q : Plane) → insert_lease l p ≡ ok q → P p → P q

module _ {P : Plane → Type 0} (blind : IsBlind P) (a : Signer) (now : Time) where
  queue_kept : (node : String) (order : Order) → Keeps P (update (queue now node order))
  queue_kept node order = Keeps-update _ (blind.queued now node order)

  queue_twice_kept :
      (node : String) (first second : Order)
      → Keeps P (update (λ p. queue now node second (queue now node first p)))
  queue_twice_kept node first second =
      Keeps-update _ (λ p h. blind.queued now node second _ (blind.queued now node first p h))

  lease_kept : (l : QuotaLease) → Keeps P (update_checked (insert_lease l))
  lease_kept l = Keeps-update_checked _ (blind.leased l)

  pub provision_device_kept : (device node : String) → Keeps P (provision_device a now device node)
  unfolding provision_device provision_body provision_row grant_lease
  provision_device_kept device node =
      search (keeps_rules, Keeps-or_raise, queue_kept, queue_twice_kept, lease_kept) depth 14

  provision_all_kept : (items : List (String × String)) → Keeps P (provision_all a now items)
  unfolding provision_all
  provision_all_kept [] = Keeps-pure tt
  provision_all_kept (item ∷ items) =
      Keeps-bind (provision_device a now item.0 item.1) _ (provision_device_kept item.0 item.1)
        (λ u. provision_all_kept items)

  pub provision_user_devices_kept : (user : String) → Keeps P (provision_user_devices a now user)
  unfolding provision_user_devices
  provision_user_devices_kept user = search (keeps_rules, provision_all_kept) depth 8
