-- ===== src/Collector/Limits.antt =====
-- Who is kicked after a booking.
use rmvpn.Base.{
  ◌≡◌, refl, String, Bool, true, false, ◌&&◌, ◌||◌, Option, none, some, List, ◌∷◌, arith, ap, ◌∙◌,
  ◌⊎◌, inl, inr, find, Bool-cases, if◌then◌else◌,
}
use rmvpn.Base.Int.{ℤ, pos, ltb_ℤ, leb_ℤ, ◌≤ℤ◌, ◌<ℤ◌}
use rmvpn.Base.Time.{Time}
use rmvpn.Base.Outcome.{Error, Result, ok, err}
use rmvpn.Model.{Device, Plan, trial, lite, plus, ultra, other, PlanPolicy, policy_of, is_trial}
use rmvpn.Node.{Node}
use rmvpn.Node.Tables.{Store}
use rmvpn.Exec.{
  World, M, dropped, failing, attempt, query, call, exec_checked, or_raise, kept_or, pure, ◌>>=◌,
}
use rmvpn.Exec.Keeps.{Keeps, Keeps-exec_checked, keeps_rules, Keeps-pure, Keeps-raise}
use rmvpn.Exec.Success.{>>=-eq-ok}
use rmvpn.Store.Devices.{has_id, scanned, device_by_id}
use rmvpn.Store.Usage.{add_usage, add_usage_body}
use rmvpn.Collector.{Counter, kick, must_kick, over_limit, enforce, collect_device}

-- The limit of a device: its own quota, or its plan's where it has none.
abbrev pub IsLimit : Device → PlanPolicy → ℤ → Type 0
IsLimit d policy quota =
    ((pos 0 <ℤ d.quota_bytes) × (quota ≡ d.quota_bytes))
    ⊎ ((d.quota_bytes ≤ℤ pos 0) × (quota ≡ policy.quota_bytes))

-- A device of a known plan is over its limit if it is on the trial and has used its quota, or if it
-- has a quota lease and has used that.
abbrev pub IsOver : Device → ℤ → Type 0
IsOver d used =
    (policy : PlanPolicy) × (policy_of d.plan ≡ some policy)
    × (((d.plan ≡ trial) × ((quota : ℤ) × IsLimit d policy quota × (quota ≤ℤ used)))
        ⊎ ((pos 0 <ℤ d.lease_bytes) × (d.lease_bytes ≤ℤ used)))

trial_plan : (p : Plan) → is_trial p ≡ true → p ≡ trial
trial_plan trial e = refl
trial_plan lite e = cc
trial_plan plus e = cc
trial_plan ultra e = cc
trial_plan (other name) e = cc

limit_of :
    (d : Device) (policy : PlanPolicy)
    → IsLimit d policy (if leb_ℤ d.quota_bytes (pos 0) then policy.quota_bytes else d.quota_bytes)
limit_of d policy = elim (Bool-cases (leb_ℤ d.quota_bytes (pos 0))) [
  | inl t ↦ inr (ground (arith, t), ground (arith, t))
  | inr f ↦ inl (ground (arith, f), ground (arith, f))
]

must_kick-IsOver :
    (d : Device) (used : ℤ) (o : Option PlanPolicy)
    → policy_of d.plan ≡ o
    → must_kick d used o ≡ true
    → IsOver d used
unfolding must_kick over_limit
must_kick-IsOver d used none p e = cc
must_kick-IsOver d used (some policy) p e =
    let quota = if leb_ℤ d.quota_bytes (pos 0) then policy.quota_bytes else d.quota_bytes in
    elim (Bool-cases (is_trial d.plan && leb_ℤ quota used)) [
      | inl t ↦ (
        policy,
        p,
        inl (trial_plan d.plan (ground (arith, t)), (quota, limit_of d policy, ground (arith, t))),
      )
      | inr f ↦ (policy, p, inr (ground (arith, e, f), ground (arith, e, f)))
    ]

module _ (id : String) where
  enforced :
      (used : ℤ) (o : Option (Option Device)) (w : World)
      → let ks = (enforce id used o w).1.held.kicked in
        (ks ≡ w.held.kicked)
        ⊎ ((ks ≡ id ∷ w.held.kicked) × ((d : Device) × (o ≡ some (some d)) × IsOver d used))
  unfolding enforce kick call
  enforced used none w = inl refl
  enforced used (some none) w = inl refl
  enforced used (some (some d)) w = elim (Bool-cases (must_kick d used (policy_of d.plan))) [
    | inl over ↦ elim (Bool-cases (failing w.faults)) [
      | inl e ↦ inl (ground arith)
      | inr e ↦ inr (ground arith, (d, refl, must_kick-IsOver d used _ refl over))
    ]
    | inr under ↦ inl (ground arith)
  ]

  kept_kicked :
      (ks : List String) (n : Node) (r : Result Store) → n.kicked ≡ ks → (kept_or n r).1.kicked ≡ ks
  kept_kicked ks n (ok s) h = h
  kept_kicked ks n (err e) h = h

  or_raise_kicked :
      (ks : List String) (x : Error) (o : Option ℤ)
      → Keeps (λ (n : Node). n.kicked ≡ ks) (or_raise x o)
  or_raise_kicked ks x none = Keeps-raise x
  or_raise_kicked ks x (some a) = Keeps-pure a

  exec_checked_kicked :
      (ks : List String) (f : Store → Result Store)
      → Keeps (λ (n : Node). n.kicked ≡ ks) (exec_checked f)
  exec_checked_kicked ks f = Keeps-exec_checked f (λ n h. kept_kicked ks n (f n.store) h)

  booked_kicked :
      (tx rx : ℤ) (now : Time) (ks : List String)
      → Keeps (λ (n : Node). n.kicked ≡ ks) (add_usage id tx rx now)
  unfolding add_usage add_usage_body
  booked_kicked tx rx now ks =
      search (keeps_rules, exec_checked_kicked ks, or_raise_kicked ks) depth 12

  found_device :
      (w : World) (d : Device)
      → dropped (device_by_id id w).0 ≡ some (some d)
      → scanned (find (has_id id) w.held.store.devices) ≡ some d
  unfolding device_by_id query call
  found_device w d e = ground arith

  found_kicked : (w : World) → (attempt (device_by_id id) w).1.held.kicked ≡ w.held.kicked
  unfolding device_by_id query call
  found_kicked w = ground arith

  module _ (now : Time) (counter : Counter) (w : World) where
    abbrev round : M (Unit {0})
    round = add_usage id counter.tx counter.rx now >>= λ used.
        attempt (device_by_id id) >>= λ found. enforce id used found

    abbrev Kicks : List String → Type 0
    Kicks ks =
        (ks ≡ w.held.kicked)
        ⊎ ((ks ≡ id ∷ w.held.kicked)
            × ((used : ℤ) × (d : Device) × ((add_usage id counter.tx counter.rx now w).0 ≡ ok used)
                × (scanned (
                      find (has_id id)
                        (add_usage id counter.tx counter.rx now w).1.held.store.devices)
                    ≡ some d)
                × IsOver d used))

    unless_negative :
        (negative : Bool)
        → ((if negative then pure tt else round) w).0 ≡ ok tt
        → Kicks ((if negative then pure tt else round) w).1.held.kicked
    unless_negative true e = inl refl
    unless_negative false e =
        let (used, first, second, same) =
          >>=-eq-ok (add_usage id counter.tx counter.rx now)
            (λ used. attempt (device_by_id id) >>= λ found. enforce id used found) w e in
        let v : World = (add_usage id counter.tx counter.rx now w).1 in
        let u : World = (attempt (device_by_id id) v).1 in
        let o = dropped (device_by_id id v).0 in
        let unkicked : u.held.kicked ≡ w.held.kicked =
          found_kicked v ∙ (booked_kicked counter.tx counter.rx now w.held.kicked).at w refl in
        let end = ap (λ (z : World). z.held.kicked) same in
        elim (enforced used o u) [
          | inl none_new ↦ inl (end ∙ none_new ∙ unkicked)
          | inr h ↦
              (let (d, found, over) = h.1 in
                inr
                  (end ∙ h.0 ∙ ap (id ∷◌) unkicked, (used, d, first, found_device v d found, over)))
        ]

    -- The round of a device that returns has kicked nobody, or just that device, and that only if its
    -- traffic was booked and the device, as it is stored then, is of a known plan and over a limit:
    -- it is on the trial and the booked total has reached its quota, or it has a quota lease and the
    -- total has reached that.
    pub collect_device_kicks :
        (collect_device now id counter w).0 ≡ ok tt
        → let ks = (collect_device now id counter w).1.held.kicked in
          let v = (add_usage id counter.tx counter.rx now w).1 in
          (ks ≡ w.held.kicked)
          ⊎ ((ks ≡ id ∷ w.held.kicked)
              × ((used : ℤ) × (d : Device) × ((add_usage id counter.tx counter.rx now w).0
                    ≡ ok used)
                  × (scanned (find (has_id id) v.held.store.devices) ≡ some d)
                  × IsOver d used))
    unfolding collect_device
    collect_device_kicks e =
        unless_negative (ltb_ℤ counter.tx (pos 0) || ltb_ℤ counter.rx (pos 0)) e
