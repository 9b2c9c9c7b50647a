-- ===== src/Tests/Storage.antt =====
-- Claims, bookings, upserts and acknowledgements in a sample database.
use rmvpn.Base.{
  arith, ◌+◌, ◌++◌, ℕ, ◌≤◌, List, Bool, String, true, false, none, some, [], ◌∷◌, refl, ◌≡◌, ◌≢◌,
  find, length,
}
use rmvpn.Base.Int.{ℤ, pos, add64, sql_add}
use rmvpn.Base.Time.{Time, unix}
use rmvpn.Base.Outcome.{ok}
use rmvpn.Model.{Device}
use rmvpn.Node.Tables.{DeviceRow, UsageRow}
use rmvpn.Exec.{World, exec, exec_rows, exec_checked, query, call, transaction}
use rmvpn.Store.State.{claim, claim_body, claim_states, put_states}
use rmvpn.Store.Settings.{put_all}
use rmvpn.Store.Claims.{Claims, claim_sound, claim_once}
use rmvpn.Store.Devices.{has_id, upsert_device, scan_device}
use rmvpn.Store.Roster.{added_row, kept_row, IsUsage, upsert_device_sound}
use rmvpn.Store.Usage.{UsageEvent, add_usage, add_usage_body, add_used, used_of, mark_usage_sent}
use rmvpn.Store.Accounting.{booked_event, add_usage_sound}
use rmvpn.Store.Outbox.{IsMarked, mark_usage_sent_sound}
use rmvpn.Base.Rows.{Memᴰ, Forall₂}
use rmvpn.Control.Messages.{EventId, number}
use rmvpn.Control.Handlers.{event_ids}
use rmvpn.Control.Ticks.{ticks, capacity, unsent}
use rmvpn.Control.Drain.{ticks-drain}
use rmvpn.Store.Answers.{claim_complete}
use rmvpn.Store.Isolation.{add_usage_isolated}
use rmvpn.Tests.Samples.{apart, phone_row, sample, digest, sample_store, sample_node}

claimed : (claim digest "u" "k" "c" "ca" 5 sample).0 ≡ ok tt
unfolding claim transaction claim_body exec_rows call put_states exec
claimed = refl

claim_sound_example :
    let t = (claim digest "u" "k" "c" "ca" 5 sample).1.held.store in
    Claims sample.held.store.enrollment t.enrollment digest 5
    × (t.state ≡ put_all (claim_states "u" "k" "c" "ca") sample.held.store.state)
claim_sound_example = claim_sound digest "u" "k" "c" "ca" 5 sample claimed

-- The third of the five statements fails.
abbrev failing_sample : World
failing_sample = record sample { faults = false ∷ false ∷ true ∷ [] }

claim_once_example :
    (claim digest "u2" "k2" "c2" "ca2" 6 (claim digest "u" "k" "c" "ca" 5 sample).1).0 ≢ ok tt
claim_once_example =
    claim_once digest "u" "k" "c" "ca" 5 sample claimed digest "u2" "k2" "c2" "ca2" 6
      (claim digest "u" "k" "c" "ca" 5 sample).1 refl

booked : (add_usage "phone" (pos 30) (pos 4) 5 sample).0 ≡ ok (pos 44)
unfolding add_usage transaction add_usage_body exec exec_checked query call add_used sql_add add64
booked = refl

add_usage_sound_example :
    let t = (add_usage "phone" (pos 30) (pos 4) 5 sample).1.held.store in
    (before : DeviceRow) × (find (has_id "phone") sample.held.store.devices ≡ some before)
    × (sql_add before.used_bytes (add64 (pos 30) (pos 4)) ≡ some (pos 44))
    × (used_of (find (has_id "phone") t.devices) ≡ some (pos 44))
    × (t.usage_events
        ≡ sample.held.store.usage_events
          ++ booked_event "phone" (pos 30) (pos 4) 5 (sample.held.store.last_event + 1) ∷ [])
    × (t.last_event ≡ sample.held.store.last_event + 1)
add_usage_sound_example = add_usage_sound "phone" (pos 30) (pos 4) 5 sample (pos 44) booked

abbrev paused : Device
paused = record (scan_device phone_row) { active = false }

upserted : (upsert_device paused sample).0 ≡ ok tt
unfolding upsert_device exec_checked call
upserted = refl

upsert_device_sound_example :
    let before = sample.held.store.devices in
    let rows = (upsert_device paused sample).1.held.store.devices in
    ((row : DeviceRow)
      → Memᴰ row before
      → row.credential_hash ≡ paused.credential_hash
      → row.device_id ≡ "phone")
    × ((j : String) → j ≢ "phone" → find (has_id j) rows ≡ find (has_id j) before)
    × (find (has_id "phone") before ≡ none → find (has_id "phone") rows ≡ some (added_row paused))
    × ((row : DeviceRow)
        → find (has_id "phone") before ≡ some row
        → (used : ℤ) × (find (has_id "phone") rows ≡ some (kept_row paused row used))
          × IsUsage paused row used)
upsert_device_sound_example = upsert_device_sound paused sample upserted

abbrev event : ℕ → UsageRow
event id = record {
  id = id;
  device_id = "phone";
  tx_bytes = pos 1;
  rx_bytes = pos 1;
  recorded_at = 1;
  sent_at = none;
}

abbrev with_events : World
with_events = record sample {
  held = record sample_node {
    store = record sample_store { usage_events = event 1 ∷ event 2 ∷ []; last_event = 2 };
  };
}

marked : (mark_usage_sent (pos 1 ∷ []) 9 with_events).0 ≡ ok tt
unfolding mark_usage_sent exec call
marked = refl

mark_usage_sent_sound_example :
    Forall₂
      (IsMarked (pos 1 ∷ []) (unix 9))
      with_events.held.store.usage_events
      (mark_usage_sent (pos 1 ∷ []) 9 with_events).1.held.store.usage_events
mark_usage_sent_sound_example = mark_usage_sent_sound (pos 1 ∷ []) 9 with_events marked

abbrev acked_by_number : UsageEvent → EventId
acked_by_number e = number e.id

-- The first batch is lost.
abbrev lost_once : List (Time × Bool)
lost_once = (9, false) ∷ (10, true) ∷ []

read_back :
    (e : UsageEvent) (rest : List EventId)
    → event_ids (acked_by_number e ∷ rest) ≡ e.id ∷ event_ids rest
unfolding event_ids
read_back e rest = refl

room : length (unsent with_events) ≤ capacity lost_once
unfolding capacity
room = omega arith

ticks-drain_example :
    ((ticks acked_by_number lost_once with_events).0 ≡ ok tt)
    × (unsent (ticks acked_by_number lost_once with_events).1 ≡ [])
ticks-drain_example = ticks-drain acked_by_number read_back lost_once with_events refl room

claim_complete_example : (claim digest "u" "k" "c" "ca" 5 sample).0 ≡ ok tt
claim_complete_example =
    claim_complete digest "u" "k" "c" "ca" 5 sample
      (record { token = "t"; token_hash = digest; expires_at = 1_000; claimed_at = none }) refl refl
      refl (ground arith) refl

abbrev with_tablet : World
with_tablet = record sample {
  held = record sample_node {
    store = record sample_store {
      devices =
          record phone_row { device_id = "tablet"; credential_hash = "other" } ∷ phone_row ∷ [];
    };
  };
}

add_usage_isolated_example :
    find (has_id "tablet") (add_usage "phone" (pos 30) (pos 4) 5 with_tablet).1.held.store.devices
    ≡ find (has_id "tablet") with_tablet.held.store.devices
add_usage_isolated_example =
    add_usage_isolated "phone" "tablet" (pos 30) (pos 4) 5 with_tablet (apart "tablet" "phone" refl)
