-- ===== src/Store/Roster.antt =====
-- The table `devices` as a map from IDs: what an upsert, a revocation and an override leave.
use rmvpn.Base.{
  ◌≡◌, ◌≢◌, refl, String, true, false, none, some, List, [], ◌∷◌, ◌++◌, eqb, eqb_iff, Bool-cases,
  ◌⊎◌, inl, inr, eq_iff, arith, ap, ◌∙◌, find, change, any, if◌then◌else◌,
}
use rmvpn.Base.Rows.{Memᴰ, find-Memᴰ, any-Memᴰ}
use rmvpn.Base.Int.{ℤ, pos}
use rmvpn.Base.Time.{unix, unix_epoch}
use rmvpn.Base.Outcome.{ok}
use rmvpn.Model.{Device}
use rmvpn.Node.Tables.{DeviceRow}
use rmvpn.Exec.{World, exec_checked, call}
use rmvpn.Store.Devices.{has_id, taken, inserted, updated, upsert_rows, upsert_device}

any-find :
    (id : String) (rows : List DeviceRow) (row : DeviceRow)
    → find (has_id id) rows ≡ some row
    → any (has_id id) rows ≡ true
any-find id [] row e = cc
any-find id (r ∷ rows) row e = ground (arith, any-find id rows row)

none-find :
    (id : String) (rows : List DeviceRow)
    → find (has_id id) rows ≡ none
    → any (has_id id) rows ≡ false
none-find id [] e = refl
none-find id (r ∷ rows) e = ground (arith, none-find id rows)

find-change :
    (id : String) (f : DeviceRow → DeviceRow) (rows : List DeviceRow) (row : DeviceRow)
    → ((r : DeviceRow) → (f r).device_id ≡ r.device_id)
    → find (has_id id) rows ≡ some row
    → find (has_id id) (change (has_id id) f rows) ≡ some (f row)
find-change id f [] row k e = cc
find-change id f (r ∷ rows) row k e = ground (arith, k r, find-change id f rows row k)

find-change_other :
    (id j : String) (f : DeviceRow → DeviceRow) (rows : List DeviceRow)
    → ((r : DeviceRow) → (f r).device_id ≡ r.device_id)
    → j ≢ id
    → find (has_id j) (change (has_id id) f rows) ≡ find (has_id j) rows
find-change_other id j f [] k n = refl
find-change_other id j f (r ∷ rows) k n =
    ground
      (arith, k r, find-change_other id j f rows k n, eq_iff r.device_id id, eq_iff r.device_id j)

find-end :
    (j : String) (rows : List DeviceRow) (r : DeviceRow)
    → find (has_id j) rows ≡ none
    → find (has_id j) (rows ++ r ∷ []) ≡ (if has_id j r then some r else none)
find-end j [] r e = refl
find-end j (x ∷ rows) r e = ground (arith, find-end j rows r)

find-end_other :
    (j : String) (rows : List DeviceRow) (r : DeviceRow)
    → has_id j r ≡ false
    → find (has_id j) (rows ++ r ∷ []) ≡ find (has_id j) rows
find-end_other j [] r e = ground arith
find-end_other j (x ∷ rows) r e = ground (arith, find-end_other j rows r e)

pub find-upsert_known :
    (d : Device) (rows : List DeviceRow) (row : DeviceRow)
    → find (has_id d.id) rows ≡ some row
    → find (has_id d.id) (upsert_rows d rows) ≡ some (updated d row)
unfolding upsert_rows
find-upsert_known d rows row e =
    ground (arith, any-find d.id rows row e, find-change d.id (updated d) rows row (λ r. refl) e)

pub find-upsert_new :
    (d : Device) (rows : List DeviceRow)
    → find (has_id d.id) rows ≡ none
    → find (has_id d.id) (upsert_rows d rows) ≡ some (inserted d)
unfolding upsert_rows
find-upsert_new d rows e =
    ground (arith, none-find d.id rows e, find-end d.id rows (inserted d) e, eq_iff d.id d.id)

pub find-upsert_other :
    (d : Device) (j : String) (rows : List DeviceRow)
    → j ≢ d.id
    → find (has_id j) (upsert_rows d rows) ≡ find (has_id j) rows
unfolding upsert_rows
find-upsert_other d j rows n = ground (
  arith,
  find-change_other d.id j (updated d) rows (λ r. refl) n,
  find-end_other j rows (inserted d),
  eq_iff d.id j,
)

pub upsert_device-eq-ok :
    (d : Device) (w : World)
    → (upsert_device d w).0 ≡ ok tt
    → (any (taken d) w.held.store.devices ≡ false)
      × ((upsert_device d w).1.held ≡ record w.held {
        store = record w.held.store { devices = upsert_rows d w.held.store.devices };
      })
unfolding upsert_device exec_checked call
upsert_device-eq-ok d w e = (ground arith, ground arith)

-- The row of a device that was not there.
abbrev pub added_row : Device → DeviceRow
added_row d = record {
  device_id = d.id;
  credential_hash = d.credential_hash;
  plan = d.plan;
  active = d.active;
  subscription_ends = unix d.subscription_ends;
  period_ends = unix d.period_ends;
  quota_bytes = d.quota_bytes;
  used_bytes = d.used_bytes;
  lease_bytes = d.lease_bytes;
  lease_expires = unix d.lease_expires;
  override_up_bps = pos 0;
  override_down_bps = pos 0;
  override_p2p = false;
  override_expires = unix_epoch;
}

-- The row of a device that was there.
abbrev pub kept_row : Device → DeviceRow → ℤ → DeviceRow
kept_row d row used = record {
  device_id = d.id;
  credential_hash = d.credential_hash;
  plan = d.plan;
  active = d.active;
  subscription_ends = unix d.subscription_ends;
  period_ends = unix d.period_ends;
  quota_bytes = d.quota_bytes;
  used_bytes = used;
  lease_bytes = d.lease_bytes;
  lease_expires = unix d.lease_expires;
  override_up_bps = row.override_up_bps;
  override_down_bps = row.override_down_bps;
  override_p2p = row.override_p2p;
  override_expires = row.override_expires;
}

-- The used bytes go on within a period, and start again with a new one.
abbrev pub IsUsage : Device → DeviceRow → ℤ → Type 0
IsUsage d row used =
    ((row.period_ends ≡ unix d.period_ends) × (used ≡ row.used_bytes))
    ⊎ ((row.period_ends ≢ unix d.period_ends) × (used ≡ d.used_bytes))

untaken :
    (d : Device) (rows : List DeviceRow) (row : DeviceRow)
    → any (taken d) rows ≡ false
    → Memᴰ row rows
    → row.credential_hash ≡ d.credential_hash
    → row.device_id ≡ d.id
untaken d rows row free m h = elim (Bool-cases (taken d row)) [
  | inl t ↦ absurd (ground (arith, any-Memᴰ (taken d) rows row m t, free))
  | inr f ↦
      ground (arith, f, h, eq_iff row.credential_hash d.credential_hash, eq_iff row.device_id d.id)
]

updated-IsUsage :
    (d : Device) (row : DeviceRow)
    → IsUsage d row
        (if eqb row.period_ends (unix d.period_ends) then row.used_bytes else d.used_bytes)
updated-IsUsage d row = elim (Bool-cases (eqb row.period_ends (unix d.period_ends))) [
  | inl t ↦ inl ((eqb_iff row.period_ends (unix d.period_ends)).0 t, ground (arith, t))
  | inr f ↦ inr (
    λ p. ground (arith, f, (eqb_iff row.period_ends (unix d.period_ends)).1 p),
    ground (arith, f),
  )
]

-- An upsert that returns leaves every other device as it was, and no other device had the credential
-- that it brings. A device that was not there has just what the upsert names, and no override; one
-- that was there has what the upsert names, its own override, and its own used bytes if its period
-- is the one that the upsert names, or else the used bytes that the upsert names.
pub upsert_device_sound :
    (d : Device) (w : World)
    → (upsert_device d w).0 ≡ ok tt
    → let before = w.held.store.devices in
      let rows = (upsert_device d w).1.held.store.devices in
      ((row : DeviceRow)
        → Memᴰ row before
        → row.credential_hash ≡ d.credential_hash
        → row.device_id ≡ d.id)
      × ((j : String) → j ≢ d.id → find (has_id j) rows ≡ find (has_id j) before)
      × (find (has_id d.id) before ≡ none → find (has_id d.id) rows ≡ some (added_row d))
      × ((row : DeviceRow)
          → find (has_id d.id) before ≡ some row
          → (used : ℤ) × (find (has_id d.id) rows ≡ some (kept_row d row used))
            × IsUsage d row used)
upsert_device_sound d w e =
    let (free, node) = upsert_device-eq-ok d w e in
    let before = w.held.store.devices in
    let rows = ap (λ n. n.store.devices) node in
    let at : (j : String) → _ = λ j. ap (find (has_id j)) rows in
    (
      λ row. untaken d before row free,
      λ j n. at j ∙ find-upsert_other d j _ n,
      λ m. at d.id ∙ find-upsert_new d _ m,
      λ row m. (
        _,
        at d.id ∙ find-upsert_known d _ row m ∙ ap some (named_row row m),
        updated-IsUsage d row,
      ),
    )
  where
    named_row :
        (row : DeviceRow)
        → find (has_id d.id) w.held.store.devices ≡ some row
        → updated d row
          ≡ kept_row d row
              (if eqb row.period_ends (unix d.period_ends) then row.used_bytes else d.used_bytes)
    named_row row m =
        let own : row.device_id ≡ d.id =
          (eq_iff row.device_id d.id).0 (find-Memᴰ (has_id d.id) w.held.store.devices row m).1 in
        ap (λ z. record (updated d row) { device_id = z }) own
