-- ===== src/Store/Accounting.antt =====
-- The bytes that a device has used: each booking is recorded once, adds up, or changes nothing.
use rmvpn.Base.{
  ℕ, ◌+◌, ◌++◌, ◌≡◌, refl, ap, ◌∙◌, String, true, false, Option, none, some, List, [], ◌∷◌, arith,
  inl, inr, Bool-cases, find, if◌then◌else◌,
}
use rmvpn.Base.Int.{ℤ, add64, sql_add}
use rmvpn.Base.Time.{Time, unix}
use rmvpn.Base.Outcome.{ok}
use rmvpn.Node.{Node}
use rmvpn.Node.Tables.{Store, DeviceRow, UsageRow}
use rmvpn.Exec.{World, spent}
use rmvpn.Exec.Success.{transaction-eq-ok}
use rmvpn.Store.Devices.{has_id}
use rmvpn.Store.Usage.{
  add_usage, add_usage_body, add_used, with_used, cons_row, used_of, insert_event,
}

pub cons_row-eq-some :
    (o : Option DeviceRow) (rows : Option (List DeviceRow)) (all : List DeviceRow)
    → cons_row o rows ≡ some all
    → (row : DeviceRow) × (rest : List DeviceRow) × (o ≡ some row)
      × (rows ≡ some rest)
      × (all ≡ row ∷ rest)
cons_row-eq-some none rows all e = cc
cons_row-eq-some (some row) none all e = cc
cons_row-eq-some (some row) (some rest) all e = (row, rest, refl, refl, cc)

pub with_used-eq-some :
    (row next : DeviceRow) (o : Option ℤ)
    → with_used row o ≡ some next
    → (o ≡ some next.used_bytes) × (next ≡ record row { used_bytes = next.used_bytes })
with_used-eq-some row next none e = cc
with_used-eq-some row next (some used) e = (ground arith, ground arith)

hit_used :
    (id : String) (bytes : ℤ) (r y row : DeviceRow) (ys : List DeviceRow)
    → has_id id r ≡ true
    → (if has_id id r then with_used r (sql_add r.used_bytes bytes) else some r) ≡ some y
    → find (has_id id) (y ∷ ys) ≡ some row
    → sql_add r.used_bytes bytes ≡ some row.used_bytes
hit_used id bytes r y row ys hit u f =
    let (sum, same) = with_used-eq-some r y (sql_add r.used_bytes bytes) (rw hit at u) in
    ground arith

missed :
    (id : String) (bytes : ℤ) (r y row : DeviceRow) (ys : List DeviceRow)
    → has_id id r ≡ false
    → (if has_id id r then with_used r (sql_add r.used_bytes bytes) else some r) ≡ some y
    → find (has_id id) (y ∷ ys) ≡ some row
    → find (has_id id) ys ≡ some row
missed id bytes r y row ys miss u f = ground arith

-- The row found after the update is the row found before it, with the sum.
find-add_used :
    (id : String) (bytes : ℤ) (rows after : List DeviceRow) (row : DeviceRow)
    → add_used id bytes rows ≡ some after
    → find (has_id id) after ≡ some row
    → (before : DeviceRow) × (find (has_id id) rows ≡ some before)
      × (sql_add before.used_bytes bytes ≡ some row.used_bytes)
unfolding add_used
find-add_used id bytes [] after row e f = ground arith
find-add_used id bytes (r ∷ rows) after row e f =
    let (y, ys, p, q, z) = cons_row-eq-some _ (add_used id bytes rows) after e in
    elim (Bool-cases (has_id id r)) [
      | inl hit ↦ (r, rw hit, hit_used id bytes r y row ys hit p (rw z at f))
      | inr miss ↦
          (let (before, found, sum) =
              find-add_used id bytes rows ys row q
                (missed id bytes r y row ys miss p (rw z at f)) in
            (before, rw miss found, sum))
    ]

module _ (id : String) (tx rx : ℤ) (now : Time) where
  body_ok :
      (w : World) (used : ℤ) (o : Option (List DeviceRow))
      → add_used id (add64 tx rx) w.held.store.devices ≡ o
      → (add_usage_body id tx rx now w).0 ≡ ok used
      → (rows : List DeviceRow) × (o ≡ some rows)
        × ((add_usage_body id tx rx now w).1.held.store
            ≡ record (insert_event id tx rx now w.held.store) { devices = rows })
        × (used_of (find (has_id id) rows) ≡ some used)
  unfolding add_usage_body
  body_ok w used none a e = ground arith
  body_ok w used (some rows) a e = (rows, refl, ground arith, ground arith)

  found_used :
      (w : World) (used : ℤ) (rows : List DeviceRow) (o : Option DeviceRow)
      → add_used id (add64 tx rx) w.held.store.devices ≡ some rows
      → find (has_id id) rows ≡ o
      → used_of o ≡ some used
      → (before : DeviceRow) × (find (has_id id) w.held.store.devices ≡ some before)
        × (sql_add before.used_bytes (add64 tx rx) ≡ some used)
  found_used w used rows none a f u = cc
  found_used w used rows (some row) a f u =
      let (before, found, sum) = find-add_used id (add64 tx rx) w.held.store.devices rows row a f in
      (before, found, sum ∙ u)

  -- The row that a booking appends to the usage events.
  abbrev pub booked_event : ℕ → UsageRow
  booked_event number = record {
    id = number;
    device_id = id;
    tx_bytes = tx;
    rx_bytes = rx;
    recorded_at = unix now;
    sent_at = none;
  }

  -- A booking that returns had a row for the device; it returns the row's bytes and the counted
  -- bytes, added without overflow, which is what the device's row then has. It appends one event to
  -- the usage events, not sent, with the next number, the device, the time and the two counts as
  -- they were given, and takes that number.
  pub add_usage_sound :
      (w : World) (used : ℤ)
      → (add_usage id tx rx now w).0 ≡ ok used
      → let s = w.held.store in
        let t = (add_usage id tx rx now w).1.held.store in
        (before : DeviceRow) × (find (has_id id) s.devices ≡ some before)
        × (sql_add before.used_bytes (add64 tx rx) ≡ some used)
        × (used_of (find (has_id id) t.devices) ≡ some used)
        × (t.usage_events ≡ s.usage_events ++ booked_event (s.last_event + 1) ∷ [])
        × (t.last_event ≡ s.last_event + 1)
  unfolding add_usage
  add_usage_sound w used e =
      let (body, node) = transaction-eq-ok (add_usage_body id tx rx now) w e in
      let (rows, added, store, total) = body_ok (spent w) used _ refl body in
      let (before, found, sum) = found_used (spent w) used rows _ added refl total in
      let end = ap (λ (n : Node). n.store) node ∙ store in
      (
        before,
        found,
        sum,
        ap (λ (s : Store). used_of (find (has_id id) s.devices)) end ∙ total,
        ap (λ (s : Store). s.usage_events) end,
        ap (λ (s : Store). s.last_event) end,
      )
