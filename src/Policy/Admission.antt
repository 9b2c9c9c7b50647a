-- ===== src/Policy/Admission.antt =====
-- Who is admitted, as an independent description, and that the policy service and the Xray manager
-- both decide it.
use rmvpn.Base.{
  ◌<◌, ◌≡◌, ◌≢◌, refl, String, Bool, true, false, Option, none, some, find, arith, eq_iff,
}
use rmvpn.Base.Int.{pos, ◌≤ℤ◌, ◌<ℤ◌}
use rmvpn.Base.Outcome.{ok}
use rmvpn.Base.Time.{Time}
use rmvpn.Crypto.{Crypto, hash}
use rmvpn.Model.{
  Device, PlanPolicy, SessionPolicy, AuthDecision, granted, refused, policy_of, is_trial,
}
use rmvpn.Node.Tables.{DeviceRow}
use rmvpn.Exec.{World, failing}
use rmvpn.Store.Devices.{has_hash, scan_device, scanned}
use rmvpn.Xray.{allowed, allowed_plan}
use rmvpn.Policy.{
  quota_of, is_exhausted, lease_spent, session_policy, decide_plan, decide, authenticate,
}

-- The device is active and paid for, its plan is known, a Trial has quota left, and a lease of a
-- device with quota left is neither over nor used up.
pub record Admitted (now : Time) (d : Device) (base : PlanPolicy) : Type 0 where
  pub active : d.active ≡ true
  pub paid : now < d.subscription_ends
  pub known : policy_of d.plan ≡ some base
  pub trial_left : is_trial d.plan ≡ true → d.used_bytes <ℤ quota_of d base
  pub lease_left :
      d.used_bytes <ℤ quota_of d base
      → pos 0 <ℤ d.lease_bytes
      → (now < d.lease_expires) × (d.used_bytes <ℤ d.lease_bytes)

abbrev pub is_granted : AuthDecision → Bool
is_granted (granted id s) = true
is_granted (refused reason) = false

not_exhausted :
    (d : Device) (base : PlanPolicy) → is_exhausted d base ≡ false → d.used_bytes <ℤ quota_of d base
unfolding is_exhausted
not_exhausted d base e = ground arith

exhausted :
    (d : Device) (base : PlanPolicy) → is_exhausted d base ≡ true → quota_of d base ≤ℤ d.used_bytes
unfolding is_exhausted
exhausted d base e = ground arith

lease_unspent :
    (now : Time) (d : Device)
    → lease_spent now d ≡ false
    → pos 0 <ℤ d.lease_bytes
    → (now < d.lease_expires) × (d.used_bytes <ℤ d.lease_bytes)
unfolding lease_spent
lease_unspent now d e h = ground arith

lease_spent_cases :
    (now : Time) (d : Device)
    → lease_spent now d ≡ true
    → (pos 0 <ℤ d.lease_bytes) × (((now < d.lease_expires) × (d.used_bytes <ℤ d.lease_bytes)) → ⊥)
unfolding lease_spent
lease_spent_cases now d e = (ground arith, λ h. ground (arith, h.0, h.1))

module _ (now : Time) (d : Device) where
  plan_granted :
      (base : PlanPolicy)
      → Admitted now d base
      → decide_plan now d (some base) ≡ granted d.id (session_policy now d base)
  unfolding decide_plan
  plan_granted base h = grind (
    arith,
    h.trial_left,
    h.lease_left,
    exhausted d base,
    not_exhausted d base,
    lease_spent_cases now d,
  )

  granted_plan :
      (base : PlanPolicy) (id : String) (s : SessionPolicy)
      → decide_plan now d (some base) ≡ granted id s
      → (is_trial d.plan ≡ true → d.used_bytes <ℤ quota_of d base)
        × (d.used_bytes <ℤ quota_of d base
            → pos 0 <ℤ d.lease_bytes
            → (now < d.lease_expires) × (d.used_bytes <ℤ d.lease_bytes))
        × (id ≡ d.id)
        × (s ≡ session_policy now d base)
  unfolding decide_plan
  granted_plan base id s e = (
    λ t. ground (arith, not_exhausted d base),
    λ q l. ground (arith, exhausted d base, lease_unspent now d),
    ground arith,
    ground arith,
  )

  pub Admitted-decide :
      (base : PlanPolicy)
      → Admitted now d base
      → decide now (some d) ≡ granted d.id (session_policy now d base)
  unfolding decide
  Admitted-decide base h = ground (arith, plan_granted base h)

  passed :
      (id : String) (s : SessionPolicy)
      → decide now (some d) ≡ granted id s
      → (d.active ≡ true)
        × (now < d.subscription_ends)
        × (decide_plan now d (policy_of d.plan) ≡ granted id s)
  unfolding decide
  passed id s e = (ground arith, ground arith, ground arith)

  planned :
      (o : Option PlanPolicy) (id : String) (s : SessionPolicy)
      → policy_of d.plan ≡ o
      → d.active ≡ true
      → now < d.subscription_ends
      → decide_plan now d o ≡ granted id s
      → (base : PlanPolicy) × Admitted now d base × (id ≡ d.id) × (s ≡ session_policy now d base)
  planned none id s known active paid e = unfold decide_plan in cc e
  planned (some base) id s known active paid e =
      let g = granted_plan base id s e in
      (
        base,
        record { active = active; paid = paid; known = known; trial_left = g.0; lease_left = g.1 },
        g.2,
        g.3,
      )

  pub decide-Admitted :
      (id : String) (s : SessionPolicy)
      → decide now (some d) ≡ granted id s
      → (base : PlanPolicy) × Admitted now d base × (id ≡ d.id) × (s ≡ session_policy now d base)
  decide-Admitted id s e = let p = passed id s e in planned (policy_of d.plan) id s refl p.0 p.1 p.2

  agree_on : (o : Option PlanPolicy) → allowed_plan now d o ≡ is_granted (decide_plan now d o)
  unfolding allowed_plan decide_plan is_exhausted lease_spent quota_of
  agree_on none = refl
  agree_on (some base) = ground arith

  -- The Xray manager lets a device in at just the times at which the policy service would grant it
  -- a session.
  pub allowed-decide : allowed now d ≡ is_granted (decide now (some d))
  unfolding allowed decide
  allowed-decide = ground (arith, agree_on (policy_of d.plan))

row_granted :
    (now : Time) (o : Option DeviceRow) (id : String) (s : SessionPolicy) {p : Option DeviceRow}
    → p ≡ o
    → decide now (scanned o) ≡ granted id s
    → (row : DeviceRow) × (base : PlanPolicy) × (p ≡ some row)
      × Admitted now (scan_device row) base
      × (id ≡ row.device_id)
      × (s ≡ session_policy now (scan_device row) base)
row_granted now none id s found e = unfold decide in cc e
row_granted now (some row) id s found e =
    let (base, a, i, p) = decide-Admitted now (scan_device row) id s e in
    (row, base, found, a, i, p)

module _ (c : Crypto) (now : Time) (credential : String) (w : World) where
  -- Whatever the database answers, a session is granted only for the device that holds the
  -- credential's hash, while that device is admitted, and with the session policy of its plan.
  pub authenticate_sound :
      (id : String) (s : SessionPolicy)
      → (authenticate c now credential w).0 ≡ ok (granted id s)
      → (row : DeviceRow) × (base : PlanPolicy) × (find
            (has_hash (hash c credential))
            w.held.store.devices
          ≡ some row)
        × Admitted now (scan_device row) base
        × (id ≡ row.device_id)
        × (s ≡ session_policy now (scan_device row) base)
  unfolding authenticate
  authenticate_sound id s e = row_granted now _ id s refl (ground arith)

  -- A non-empty credential of a device that is admitted is granted, if the database answers.
  pub authenticate_complete :
      (row : DeviceRow) (base : PlanPolicy)
      → credential ≢ ""
      → find (has_hash (hash c credential)) w.held.store.devices ≡ some row
      → Admitted now (scan_device row) base
      → failing w.faults ≡ false
      → (authenticate c now credential w).0
        ≡ ok (granted row.device_id (session_policy now (scan_device row) base))
  unfolding authenticate
  authenticate_complete row base n f a q =
      ground (arith, eq_iff credential "", Admitted-decide now (scan_device row) base a)
