-- ===== src/Plane/Provision/Granted.antt =====
-- A lease as provisioning may grant it, and what it rests on in the tables.
use rmvpn.Base.{
  ◌+◌, ◌*◌, ◌≤◌, ◌<◌, String, List, true, false, ◌⊎◌, inl, inr, ◌==◌, eq_iff, find, Bool-cases,
  Option, none, some, [], ◌∷◌, ◌++◌, ◌≡◌, ◌≢◌, refl, subst, arith, if◌then◌else◌,
}
use rmvpn.Base.Rows.{Memᴰ, find-Memᴰ}
use rmvpn.Base.Int.{ℤ, pos, ◌≤ℤ◌, ◌<ℤ◌, ◌+ℤ◌, ◌-ℤ◌, sub64, is_int64}
use rmvpn.Base.Time.{Time, hour}
use rmvpn.Billing.{reservable_bytes}
use rmvpn.Protocol.{sign_lease}
use rmvpn.Plane.Tables.{
  Plane, SlotRow, SubscriptionRow, SubscriptionStatus, in_force, in_grace, expired, suspended,
  pending_trial, LeaseRow,
}
use rmvpn.Plane.Hub.Connection.{is_usable, is_unset}
use rmvpn.Plane.Queue.{is_slot, of_user}
use rmvpn.Plane.Provision.{
  Signer, joined, joined_with, with_subscription, sum_reserved, is_active_lease, is_zero,
}

-- A positive reservation is no more than is asked for and than is left.
pub reserved_bytes :
    (remaining active requested : ℤ)
    → is_zero (reservable_bytes remaining active requested) ≡ false
    → let grant = reservable_bytes remaining active requested in
      (pos 0 <ℤ grant) × (grant ≤ℤ requested) × (grant ≤ℤ sub64 remaining active)
unfolding reservable_bytes
reserved_bytes remaining active requested h = ground arith

abbrev pub billion : ℤ
billion = pos 1_000_000_000

-- The bytes that the leases in force of a device have left, in sum.
pub data Reserved (now : Time) (device : String) : List LeaseRow → ℤ → Type 0 where
  nothing : Reserved now device [] (pos 0)
  passed_over :
      (row : LeaseRow) (rows : List LeaseRow) (z : ℤ)
      → (row.lease.device_id ≢ device) ⊎ (row.lease.expires_at ≤ now)
      → Reserved now device rows z
      → Reserved now device (row ∷ rows) z
  counted :
      (row : LeaseRow) (rows : List LeaseRow) (z : ℤ)
      → row.lease.device_id ≡ device
      → now < row.lease.expires_at
      → Reserved now device rows z
      → Reserved now device (row ∷ rows) (z +ℤ (row.lease.bytes -ℤ row.consumed_bytes))

-- The new lease of provisioning: signed with the configured key, for a day, of more than 0 and at
-- most a billion bytes.
pub record Granted (a : Signer) (now : Time) (device node : String) (p q : Plane) : Type 0 where
  pub key : String
  pub slot : SlotRow
  pub subscription : SubscriptionRow
  pub reserved : ℤ
  pub active : ℤ
  pub bytes : ℤ
  pub configured : a.signing_key ≡ some key
  pub listed : Memᴰ slot p.devices
  pub named : slot.device_id ≡ device
  pub unrevoked : slot.revoked_at ≡ none
  pub subscribed : Memᴰ subscription p.subscriptions
  pub owned : subscription.user_id ≡ slot.user_id
  pub usable : (subscription.status ≡ in_force) ⊎ (subscription.status ≡ in_grace)
  pub summed : Reserved now device p.quota_leases reserved
  pub scanned :
      ((is_int64 reserved ≡ true) × (active ≡ reserved))
      ⊎ ((is_int64 reserved ≡ false) × (active ≡ pos 0))
  pub unreserved : active ≤ℤ pos 0
  pub positive : pos 0 <ℤ bytes
  pub at_most : bytes ≤ℤ billion
  pub left : bytes ≤ℤ sub64 (sub64 subscription.quota_bytes subscription.used_bytes) active
  pub added :
      q.quota_leases
      ≡ p.quota_leases
        ++ record {
          lease = sign_lease a.crypto a.lease_bytes key (record {
            lease_id = a.new_lease_id device;
            device_id = device;
            node_id = node;
            bytes = bytes;
            issued_at = now;
            expires_at = now + 24 * hour;
            key_id = "quota-v1";
            signature = "";
          });
          consumed_bytes = pos 0;
        }
          ∷ []

-- What provisioning does to the leases: nothing, or it adds one.
pub data Grant (a : Signer) (now : Time) (device node : String) (p q : Plane) : Type 0 where
  no_lease : q.quota_leases ≡ p.quota_leases → Grant a now device node p q
  leased : Granted a now device node p q → Grant a now device node p q

pub sum-Reserved :
    (now : Time) (device : String) (rows : List LeaseRow)
    → Reserved now device rows (sum_reserved now device rows)
unfolding sum_reserved
sum-Reserved now device [] = nothing
sum-Reserved now device (row ∷ rows) =
    let rest = sum-Reserved now device rows in
    elim (Bool-cases (is_active_lease now device row)) [
      | inl t ↦ rw t (
          counted row rows _ ((eq_iff row.lease.device_id device).0 (ground (arith, t)))
            (ground (arith, t)) rest)
      | inr f ↦ rw f (
          passed_over row rows _
            (elim (Bool-cases (row.lease.device_id == device)) [
              | inl own ↦ inr (ground (arith, f, own))
              | inr n ↦ inl (λ e. ground (arith, n, (eq_iff row.lease.device_id device).1 e))
            ])
            rest)
    ]

pub scanned_sum :
    (z : ℤ)
    → ((is_int64 z ≡ true) × ((if is_int64 z then z else pos 0) ≡ z))
      ⊎ ((is_int64 z ≡ false) × ((if is_int64 z then z else pos 0) ≡ pos 0))
scanned_sum z = elim (Bool-cases (is_int64 z)) [
  | inl t ↦ inl (t, rw t refl)
  | inr f ↦ inr (f, rw f refl)
]

pub usable_status : (s : SubscriptionStatus) → is_usable s ≡ true → (s ≡ in_force) ⊎ (s ≡ in_grace)
usable_status in_force h = inl refl
usable_status in_grace h = inr refl
usable_status expired h = cc
usable_status suspended h = cc
usable_status pending_trial h = cc

-- A device that is not revoked, with its user's subscription.
abbrev pub Joins : String → Plane → SlotRow → SubscriptionRow → Type 0
Joins device p d s =
    Memᴰ d p.devices
    × (d.device_id ≡ device)
    × (d.revoked_at ≡ none)
    × Memᴰ s p.subscriptions
    × (s.user_id ≡ d.user_id)

pub joined-Joins :
    (device : String) (p : Plane) (d : SlotRow) (s : SubscriptionRow)
    → joined device p ≡ some (d, s)
    → Joins device p d s
unfolding joined
joined-Joins device p d s h = joined_as (find (is_slot device) p.devices) refl h
  where
    subscribed_as :
        (x : SlotRow) (o : Option SubscriptionRow)
        → find (of_user x.user_id) p.subscriptions ≡ o
        → with_subscription x o ≡ some (d, s)
        → (x ≡ d) × Memᴰ s p.subscriptions × (s.user_id ≡ x.user_id)
    subscribed_as x none f e = cc
    subscribed_as x (some t) f e =
        let (m, own) = find-Memᴰ (of_user x.user_id) p.subscriptions t f in
        let same : t ≡ s = ground (arith, e) in
        (
          ground (arith, e),
          subst (λ z. Memᴰ z p.subscriptions) same m,
          subst (λ (z : SubscriptionRow). z.user_id ≡ x.user_id) same
              ((eq_iff t.user_id x.user_id).0 own),
        )

    unset :
        (o : Option Time) (r : Option (SlotRow × SubscriptionRow))
        → (if is_unset o then r else none) ≡ some (d, s)
        → (o ≡ none) × (r ≡ some (d, s))
    unset none r e = (refl, e)
    unset (some t) r e = cc

    joined_as :
        (o : Option SlotRow)
        → find (is_slot device) p.devices ≡ o
        → joined_with p o ≡ some (d, s)
        → Joins device p d s
    joined_as none f e = cc
    joined_as (some x) f e =
        let (m, hit) = find-Memᴰ (is_slot device) p.devices x f in
        let (t, rest) =
          unset x.revoked_at (with_subscription x (find (of_user x.user_id) p.subscriptions)) e in
        let (same, listed, own) = subscribed_as x _ refl rest in
        subst (λ z. Joins device p z s) same (m, (eq_iff x.device_id device).0 hit, t, listed, own)
