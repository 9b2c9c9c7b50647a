-- ===== src/Plane/Slots/Limits.antt =====
-- A new device within the limit of its user's plan.
use rmvpn.Base.{
  ℕ, suc, ◌+◌, ◌<◌, ◌≤◌, String, true, false, not, ◌⊎◌, inl, inr, ◌==◌, eq_iff, Option, none, some,
  List, [], ◌∷◌, ◌++◌, ◌≡◌, ◌≢◌, refl, sym, ap, subst, ◌∙◌, arith, any, find, keep, length, ltb,
  Bool-cases, is_empty,
}
use rmvpn.Base.Rows.{Memᴰ, find-Memᴰ, any-Memᴰ}
use rmvpn.Base.Text.{Runes, trim_space}
use rmvpn.Base.Time.{Time}
use rmvpn.Base.Outcome.{ok, problem}
use rmvpn.Crypto.{Crypto}
use rmvpn.Plane.Tables.{Plane, SlotRow, SubscriptionRow, PlanRow}
use rmvpn.Plane.Queue.{of_user}
use rmvpn.Plane.Plans.{has_code}
use rmvpn.Plane.Hub.Connection.{is_unset}
use rmvpn.Plane.Wallet.{flattened}
use rmvpn.Plane.Slots.{
  Draw, is_live, live_count, limit_of, plan_limit, limit_and_count, slots, max_slot, collides,
  insert_device, create_body, create_device,
}
use rmvpn.Exec.{Run, select, update_checked, dropped, call}
use rmvpn.Exec.Success.{update_checked-eq-ok, guarded, opted, select-held, handled_related}

-- How many devices of a user are not revoked.
pub data Lives (user : String) : List SlotRow → ℕ → Type 0 where
  nobody : Lives user [] 0
  another :
      (d : SlotRow) (ds : List SlotRow) (n : ℕ)
      → (d.user_id ≢ user) ⊎ (d.revoked_at ≢ none)
      → Lives user ds n
      → Lives user (d ∷ ds) n
  alive :
      (d : SlotRow) (ds : List SlotRow) (n : ℕ)
      → d.user_id ≡ user
      → d.revoked_at ≡ none
      → Lives user ds n
      → Lives user (d ∷ ds) (suc n)

-- What the creation of a device may add: with fewer devices that are not revoked than the plan of
-- the user's subscription allows, a device of the user that shares no ID, credential or token with
-- another, in a slot above the user's others.
pub record Created (c : Crypto) (user : String) (draw : Draw) (p q : Plane) : Type 0 where
  pub subscription : SubscriptionRow
  pub plan : PlanRow
  pub count : ℕ
  pub slot : ℕ
  pub subscribed : Memᴰ subscription p.subscriptions
  pub owned : subscription.user_id ≡ user
  pub offered : Memᴰ plan p.plans
  pub chosen : plan.code ≡ subscription.plan_code
  pub counted : Lives user p.devices count
  pub allowed : count < plan.device_limit
  pub unique :
      (d : SlotRow)
      → Memᴰ d p.devices
      → (d.device_id ≢ draw.device_id)
        × (d.credential_hash ≢ c.sha256 draw.credential)
        × (d.subscription_token_hash ≢ c.sha256 draw.token)
  pub above : (d : SlotRow) → Memᴰ d p.devices → d.user_id ≡ user → d.slot < slot
  pub added : q ≡ record p {
    devices =
        p.devices
        ++ record {
          device_id = draw.device_id;
          user_id = user;
          slot = slot;
          hwid_hmac = none;
          credential_hash = c.sha256 draw.credential;
          subscription_token_hash = c.sha256 draw.token;
          last_bound_at = none;
          last_seen_at = none;
          revoked_at = none;
        }
          ∷ [];
  }

pub data SlotStep (c : Crypto) (user : String) (draw : Draw) (p q : Plane) : Type 0 where
  no_slot : q ≡ p → SlotStep c user draw p q
  new_slot : Created c user draw p q → SlotStep c user draw p q

unset_none : (o : Option Time) → is_unset o ≡ true → o ≡ none
unset_none none h = refl
unset_none (some t) h = cc

set_some : (o : Option Time) → is_unset o ≡ false → o ≢ none
set_some o h e = ground (arith, h, ap is_unset e)

keep-Lives : (user : String) (ds : List SlotRow) → Lives user ds (length (keep (is_live user) ds))
keep-Lives user [] = nobody
keep-Lives user (d ∷ ds) = elim (Bool-cases (is_live user d)) [
  | inl t ↦ rw t (
      alive d ds _ ((eq_iff d.user_id user).0 (ground (arith, t)))
        (unset_none d.revoked_at (ground (arith, t))) (keep-Lives user ds))
  | inr f ↦ rw f (
      another d ds _
        (elim (Bool-cases (d.user_id == user)) [
          | inl own ↦ inr (set_some d.revoked_at (ground (arith, f, own)))
          | inr n ↦ inl (λ e. ground (arith, n, (eq_iff d.user_id user).1 e))
        ])
        (keep-Lives user ds))
]

slot-le :
    (user : String) (ds : List SlotRow) (d : SlotRow)
    → Memᴰ d ds
    → d.user_id ≡ user
    → d.slot ≤ max_slot user ds
unfolding max_slot
slot-le user [] d m own = elim m [ ]
slot-le user (x ∷ xs) d (Memᴰ.head e) own =
    let hit : (x.user_id == user) ≡ true =
      (eq_iff x.user_id user).1 (subst (λ (z : SlotRow). z.user_id ≡ user) e own) in
    subst (λ (z : SlotRow). z.slot ≤ max_slot user (x ∷ xs)) (sym e) (ground (arith, hit))
slot-le user (x ∷ xs) d (Memᴰ.tail m) own = ground (arith, slot-le user xs d m own)

apart :
    (c : Crypto) (draw : Draw) (ds : List SlotRow) (d : SlotRow)
    → any (collides c draw) ds ≡ false
    → Memᴰ d ds
    → (d.device_id ≢ draw.device_id)
      × (d.credential_hash ≢ c.sha256 draw.credential)
      × (d.subscription_token_hash ≢ c.sha256 draw.token)
apart c draw ds d free m = (
  λ e. refuted (ground (arith, (eq_iff d.device_id draw.device_id).1 e)),
  λ e. refuted (ground (arith, (eq_iff d.credential_hash (c.sha256 draw.credential)).1 e)),
  λ e. refuted (ground (arith, (eq_iff d.subscription_token_hash (c.sha256 draw.token)).1 e)),
)
  where
    refuted : collides c draw d ≡ true → ⊥
    refuted t = ground (arith, any-Memᴰ (collides c draw) ds d m t, free)

module _ (user : String) (p : Plane) (s : ℕ × ℕ) where
  -- The plan that the limit is read from.
  abbrev Offers : SubscriptionRow → PlanRow → Type 0
  Offers t plan =
      Memᴰ t p.subscriptions
      × (t.user_id ≡ user)
      × Memᴰ plan p.plans
      × (plan.code ≡ t.plan_code)
      × (s.0 ≡ plan.device_limit)
      × (s.1 ≡ live_count user p)

  planned :
      (t : SubscriptionRow) (o : Option PlanRow)
      → find (of_user user) p.subscriptions ≡ some t
      → find (has_code t.plan_code) p.plans ≡ o
      → limit_and_count user (live_count user p) (limit_of o) ≡ some s
      → (plan : PlanRow) × Offers t plan
  planned t none f g h = cc
  planned t (some plan) f g h =
      let (m, own) = find-Memᴰ (of_user user) p.subscriptions t f in
      let (listed, code) = find-Memᴰ (has_code t.plan_code) p.plans plan g in
      (
        plan,
        (
          m,
          (eq_iff t.user_id user).0 own,
          listed,
          (eq_iff plan.code t.plan_code).0 code,
          ground (arith, h),
          ground (arith, h),
        ),
      )

  limited :
      (o : Option SubscriptionRow)
      → find (of_user user) p.subscriptions ≡ o
      → limit_and_count user (live_count user p) (plan_limit p o) ≡ some s
      → (t : SubscriptionRow) × ((plan : PlanRow) × Offers t plan)
  limited none f h = cc
  limited (some t) f h = (t, planned t _ f refl h)

module _ (c : Crypto) (user : String) (draw : Draw) where
  inserted-Created :
      (p q : Plane) (s : ℕ × ℕ)
      → slots user p ≡ some s
      → ltb s.1 s.0 ≡ true
      → insert_device c user draw p ≡ ok q
      → Created c user draw p q
  unfolding insert_device
  inserted-Created p q s h less i =
      let (t, (plan, (listed, own, offered, code, limit, count))) = limited user p s _ refl h in
      record {
        subscription = t;
        plan = plan;
        count = live_count user p;
        slot = max_slot user p.devices + 1;
        subscribed = listed;
        owned = own;
        offered = offered;
        chosen = code;
        counted = keep-Lives user p.devices;
        allowed = ground (arith, less, limit, count);
        unique = λ d m. apart c draw p.devices d (ground (arith, i)) m;
        above = λ d m e. omega (arith, slot-le user p.devices d m e);
        added = ground (arith, i);
      }

  found_slots :
      (w : Run Plane) (s : ℕ × ℕ)
      → flattened (dropped (select (slots user) w).0) ≡ some s
      → slots user w.held ≡ some s
  unfolding select call
  found_slots w s h = ground (arith, h)

  create_body-Created :
      (w : Run Plane) (u : Unit {0})
      → (create_body c user draw w).0 ≡ ok u
      → Created c user draw w.held (create_body c user draw w).1.held
  unfolding create_body
  create_body-Created w u h =
      let v : Run Plane = (select (slots user) w).1 in
      let (s, f, e, n) =
        opted (problem 409 "device-limit") (flattened (dropped (select (slots user) w).0)) _ v h in
      let (less, e2, n2) = guarded (ltb s.1 s.0) _ _ v e in
      let same = select-held (slots user) w in
      let i = update_checked-eq-ok (insert_device c user draw) v e2 in
      let made = inserted-Created v.held _ s (ap (slots user) same ∙ found_slots w s f) less i in
      subst (λ (z : Run Plane). Created c user draw w.held z.held) (sym (n ∙ n2))
        (subst (λ p. Created c user draw p (update_checked (insert_device c user draw) v).1.held)
          same made)

  -- The creation of a device, whatever fails, leaves the tables as they were, or adds one device of
  -- the user: only if the user had fewer devices that were not revoked than the plan of the user's
  -- subscription allows; the device shares no ID, credential or token with another one and its slot
  -- is above those of the user's other devices, revoked ones included.
  pub create_device_sound :
      (name : Option Runes) (w : Run Plane)
      → SlotStep c user draw w.held (create_device c user name draw w).1.held
  unfolding create_device
  create_device_sound none w = no_slot refl
  create_device_sound (some n) w = elim (Bool-cases (not (is_empty (trim_space n)))) [
    | inl t ↦ rw t (
        handled_related (SlotStep c user draw) (problem 500 "db") (problem 500 "db")
          (create_body c user draw) w (λ p. no_slot refl)
          (λ v u h. new_slot (create_body-Created v u h)))
    | inr f ↦ rw f (no_slot refl)
  ]
