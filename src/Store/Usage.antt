-- ===== src/Store/Usage.antt =====
-- store.go: the table `usage_events`, and the bytes that a device has used.
use rmvpn.Base.{
  ℕ, ◌+◌, ◌^◌, ltb, String, Bool, true, false, ◌||◌, Option, none, some, List, [], ◌∷◌, ◌++◌, map,
  any, find, keep, change, take, sort_by, leb, is_empty, if◌then◌else◌,
}
use rmvpn.Base.Int.{ℤ, pos, negsuc, pos_part, ltb_ℤ, add64, sql_add}
use rmvpn.Base.Time.{Time, unix, of_unix}
use rmvpn.Base.Outcome.{Result, ok, err, backend, no_rows, value_out_of_range}
use rmvpn.Node.Tables.{Store, DeviceRow, UsageRow}
use rmvpn.Store.Devices.{has_id}
use rmvpn.Exec.{M, pure, or_raise, query, exec, exec_checked, transaction, ◌>>=◌, ◌>>◌}
use rmvpn.Base.{eqb}

abbrev pub insert_event : String → ℤ → ℤ → Time → Store → Store
insert_event id tx rx now s = record s {
  usage_events = s.usage_events ++ row ∷ [];
  last_event = next;
}
  where
    next : ℕ
    next = s.last_event + 1

    row : UsageRow
    row = record {
      id = next;
      device_id = id;
      tx_bytes = tx;
      rx_bytes = rx;
      recorded_at = unix now;
      sent_at = none;
    }

-- AUTOINCREMENT refuses a row once the largest 64-bit number is taken.
abbrev pub insert_numbered : String → ℤ → ℤ → Time → Store → Result Store
insert_numbered id tx rx now s =
    if ltb (s.last_event + 1) (2 ^ 63) then ok (insert_event id tx rx now s) else err backend

-- UPDATE devices SET used_bytes=used_bytes+? WHERE device_id=?. A sum past 64 bits becomes a REAL,
-- and the SELECT that follows cannot scan it: the refusal stands here, one statement earlier.
abbrev pub with_used : DeviceRow → Option ℤ → Option DeviceRow
with_used row none = none
with_used row (some used) = some (record row { used_bytes = used })

abbrev pub cons_row : Option DeviceRow → Option (List DeviceRow) → Option (List DeviceRow)
cons_row none rows = none
cons_row (some row) none = none
cons_row (some row) (some rows) = some (row ∷ rows)

unfoldable pub add_used : String → ℤ → List DeviceRow → Option (List DeviceRow)
add_used id bytes [] = some []
add_used id bytes (row ∷ rows) =
    cons_row (if has_id id row then with_used row (sql_add row.used_bytes bytes) else some row)
      (add_used id bytes rows)

abbrev pub with_devices : Store → Option (List DeviceRow) → Result Store
with_devices s none = err value_out_of_range
with_devices s (some rows) = ok (record s { devices = rows })

abbrev pub used_of : Option DeviceRow → Option ℤ
used_of none = none
used_of (some row) = some row.used_bytes

unfoldable pub add_usage_body : String → ℤ → ℤ → Time → M ℤ
unfolding exec_checked query
add_usage_body id tx rx now = do
  exec_checked (insert_numbered id tx rx now)
  exec_checked (λ s. with_devices s (add_used id (add64 tx rx) s.devices))
  used ← query (λ s. used_of (find (has_id id) s.devices))
  or_raise no_rows used

unfoldable pub add_usage : String → ℤ → ℤ → Time → M ℤ
unfolding transaction add_usage_body
add_usage id tx rx now = transaction (add_usage_body id tx rx now)

pub record UsageEvent : Type 0 where
  pub id : ℤ
  pub device_id : String
  pub tx_bytes : ℤ
  pub rx_bytes : ℤ
  pub recorded_at : Time

abbrev pub scan_event : UsageRow → UsageEvent
scan_event row = record {
  id = pos row.id;
  device_id = row.device_id;
  tx_bytes = row.tx_bytes;
  rx_bytes = row.rx_bytes;
  recorded_at = of_unix row.recorded_at;
}

-- sent_at IS NULL
abbrev pub is_unsent : UsageRow → Bool
is_unsent row = elim row.sent_at [ none ↦ true | some t ↦ false ]

abbrev pub row_le : UsageRow → UsageRow → Bool
row_le a b = leb a.id b.id

abbrev pub page_size : ℤ → ℕ
page_size limit = if ltb_ℤ limit (pos 1) || ltb_ℤ (pos 5000) limit then 1000 else pos_part limit

unfoldable pub pending_usage : ℤ → M (List UsageEvent)
unfolding query sort_by
pending_usage limit =
    query (λ s.
      map scan_event (take (page_size limit) (sort_by row_le (keep is_unsent s.usage_events))))

abbrev pub is_event : ℕ → ℤ → Bool
is_event id (pos n) = eqb id n
is_event id (negsuc n) = false

-- id IN (…)
abbrev pub acked : List ℤ → UsageRow → Bool
acked ids row = any (is_event row.id) ids

unfoldable pub mark_usage_sent : List ℤ → Time → M (Unit {0})
unfolding exec
mark_usage_sent ids now =
    if is_empty ids
    then pure tt
    else exec (λ s. record s { usage_events = change (acked ids) sent s.usage_events })
  where
    sent : UsageRow → UsageRow
    sent row = record row { sent_at = some (unix now) }
