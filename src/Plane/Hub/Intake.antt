-- ===== src/Plane/Hub/Intake.antt =====
-- internal/controlplane/nodehub.go, `usage`: traffic that the nodes report is counted on the
-- subscriptions.
use rmvpn.Base.{
  ℕ, zero, suc, String, Bool, not, ◌&&◌, ◌||◌, Option, none, some, List, [], ◌∷◌, ◌++◌, ◌==◌, any,
  find, map, change_checked, if◌then◌else◌,
}
use rmvpn.Base.Int.{ℤ, pos, add64, sql_add, ltb_ℤ, leb_ℤ}
use rmvpn.Base.Time.{Time}
use rmvpn.Base.Outcome.{Result, ok, err, constraint_violated, value_out_of_range, invalid_encoding}
use rmvpn.Plane.Tables.{
  Plane, EventRow, SubscriptionRow, SlotRow, AssignmentRow, session_kick, Written, usage_acked,
}
use rmvpn.Plane.Queue.{of_user, is_slot, is_node, assigns, is_open_kick, queue}
use rmvpn.Exec.{
  Method, pure, or_raise, update, update_checked, update_returning, transaction, ◌>>=◌, ◌>>◌,
}

-- protocol.UsageEvent, but for its two times, which the hub only stores.
pub record UsageReport : Type 0 where
  pub event_id : String
  pub device_id : String
  pub rx_bytes : ℤ
  pub tx_bytes : ℤ

abbrev pub is_recorded : String → String → EventRow → Bool
is_recorded node event row = row.node_id == node && row.event_id == event

abbrev pub event_row : String → UsageReport → EventRow
event_row node e = record {
  node_id = node;
  event_id = e.event_id;
  device_id = e.device_id;
  rx_bytes = e.rx_bytes;
  tx_bytes = e.tx_bytes;
}

-- INSERT INTO usage_events … ON CONFLICT DO NOTHING, with the CHECKs on the byte counts and the
-- references to the node and the device, and its RowsAffected.
unfoldable pub insert_usage : String → UsageReport → Plane → Result (ℕ × Plane)
insert_usage node e p =
    if ltb_ℤ e.rx_bytes (pos 0) || ltb_ℤ e.tx_bytes (pos 0)
    then err constraint_violated
    else if any (is_recorded node e.event_id) p.usage_events
    then ok (0, p)
    else if any (is_slot e.device_id) p.devices && any (is_node node) p.nodes
    then ok (1, record p { usage_events = p.usage_events ++ event_row node e ∷ [] })
    else err constraint_violated

abbrev pub owner_of : Option SlotRow → Option String
owner_of none = none
owner_of (some d) = some d.user_id

-- (SELECT user_id FROM devices WHERE id=…)
abbrev pub owner : String → Plane → Option String
owner device p = owner_of (find (is_slot device) p.devices)

abbrev pub with_used : SubscriptionRow → Option ℤ → Option SubscriptionRow
with_used s none = none
with_used s (some used) = some (record s { used_bytes = used })

abbrev pub more_used : ℤ → SubscriptionRow → Option SubscriptionRow
more_used bytes s = with_used s (sql_add s.used_bytes bytes)

abbrev pub with_subscriptions : Plane → Option (List SubscriptionRow) → Result Plane
with_subscriptions p none = err value_out_of_range
with_subscriptions p (some rows) = ok (record p { subscriptions = rows })

abbrev pub count_for : Option String → ℤ → Plane → Result Plane
count_for none bytes p = ok p
count_for (some user) bytes p =
    with_subscriptions p (change_checked (of_user user) (more_used bytes) p.subscriptions)

-- UPDATE subscriptions SET used_bytes=used_bytes+… WHERE user_id=…
unfoldable pub count_used : String → ℤ → Plane → Result Plane
unfolding change_checked
count_used device bytes p = count_for (owner device p) bytes p

abbrev pub subscription_of : Option String → Plane → Option SubscriptionRow
subscription_of none p = none
subscription_of (some user) p = find (of_user user) p.subscriptions

abbrev pub kick_for : Time → String → Option SubscriptionRow → Option AssignmentRow → Plane → Plane
kick_for now device none a p = p
kick_for now device (some s) none p = p
kick_for now device (some s) (some a) p =
    if leb_ℤ s.quota_bytes s.used_bytes && not (any (is_open_kick a.node_id device) p.node_commands)
    then queue now a.node_id (session_kick device "quota exhausted") p
    else p

-- INSERT INTO node_commands … SELECT a.node_id,'session.kick',… WHERE s.used_bytes>=s.quota_bytes
-- AND NOT EXISTS(…)
unfoldable pub kick_exhausted : Time → String → Plane → Plane
unfolding queue
kick_exhausted now device p =
    kick_for now device (subscription_of (owner device p) p)
      (find (assigns device) p.node_assignments) p

unfoldable pub count_event : Time → String → UsageReport → ℕ → Method Plane (Unit {0})
unfolding update_checked update count_used kick_exhausted
count_event now node e zero = pure tt
count_event now node e (suc n) = do
  update_checked (count_used e.device_id (add64 e.rx_bytes e.tx_bytes))
  update (kick_exhausted now e.device_id)

-- The loop over the events.
unfoldable pub take_events : Time → String → List UsageReport → Method Plane (Unit {0})
unfolding update_returning insert_usage count_event
take_events now node [] = pure tt
take_events now node (e ∷ es) = do
  rows ← update_returning (insert_usage node e)
  count_event now node e rows
  take_events now node es

abbrev pub event_ids : List UsageReport → List String
event_ids = map (λ (e : UsageReport). e.event_id)

-- nodeConnection.write
unfoldable pub write : String → Written → Method Plane (Unit {0})
unfolding update
write node message = update (λ p. record p { written = p.written ++ (node, message) ∷ [] })

-- `body` is the message's data, `none` where it does not unmarshal.
unfoldable pub usage : Time → String → String → Option (List UsageReport) → Method Plane (Unit {0})
unfolding take_events transaction write
usage now node message_id body = do
  events ← or_raise invalid_encoding body
  transaction (take_events now node events)
  write node (usage_acked message_id (event_ids events))
