-- ===== src/Plane/Hub/Connection.antt =====
-- internal/controlplane/nodehub.go: a node's connection, from its hello to its end. Connections are
-- numbers.
use rmvpn.Base.{
  ℕ, ◌+◌, ◌*◌, ◌%◌, String, Bool, true, false, not, ◌&&◌, ◌||◌, Option, none, some, List, [], ◌∷◌,
  ◌++◌, ◌==◌, any, all, find, keep, change, length, eqb, leb, ltb, if◌then◌else◌,
}
use rmvpn.Base.Text.{Runes}
use rmvpn.Base.Time.{Time, second}
use rmvpn.Base.Outcome.{problem, hello_required, invalid_hello, invalid_reality, unknown_node}
use rmvpn.Crypto.{Crypto, is_public_key}
use rmvpn.Plane.Tables.{
  Plane, NodeRow, healthy, offline, SlotRow, SubscriptionRow, SubscriptionStatus, in_force,
  in_grace, pending_trial, expired, suspended, AssignmentRow, UserRow, DeviceOrder, device_upsert,
}
use rmvpn.Plane.Queue.{of_user, is_slot, is_node, same_text, queue}
use rmvpn.Exec.{Method, pure, guard, or_raise, attempt, modify, select, update, ◌>>=◌, ◌>>◌}

-- protocol.Hello
pub record Hello : Type 0 where
  pub node_id : String
  pub reality_public_key : String
  pub reality_short_id : Runes

abbrev is_hex : ℕ → Bool
is_hex c = (leb b'0' c && leb c b'9') || (leb b'a' c && leb c b'f') || (leb b'A' c && leb c b'F')

abbrev is_decoded_key : Option String → Bool
is_decoded_key none = false
is_decoded_key (some key) = is_public_key key

unfoldable pub valid_reality_hello : Crypto → String → Runes → Bool
valid_reality_hello c public_key short_id =
    is_decoded_key (c.decode public_key)
    && not
        (eqb (length short_id) 0 || ltb 16 (length short_id) || not (eqb (length short_id % 2) 0))
    && all is_hex short_id

abbrev has_reality : Hello → Bool
has_reality h = not (h.reality_public_key == "") || not (eqb (length h.reality_short_id) 0)

-- CASE WHEN certificate_serial=… OR next_certificate_serial=… THEN … ELSE '' END, of the node's row.
abbrev pub bears : String → NodeRow → Bool
bears serial n = same_text serial n.certificate_serial || same_text serial n.next_certificate_serial

abbrev pub bears_row : String → Option NodeRow → Bool
bears_row serial none = false
bears_row serial (some n) = bears serial n

abbrev pub on_node : String → (NodeRow → NodeRow) → Plane → Plane
on_node node f p = record p { nodes = change (is_node node) f p.nodes }

abbrev pub greeted : Time → NodeRow → NodeRow
greeted now n = record n { status = healthy; last_heartbeat_at = some now }

-- COALESCE of a nullable time with Go's zero time: valueTime.
abbrev pub value_time : Option Time → Time
value_time none = 0
value_time (some t) = t

abbrev pub is_usable : SubscriptionStatus → Bool
is_usable in_force = true
is_usable in_grace = true
is_usable pending_trial = false
is_usable expired = false
is_usable suspended = false

abbrev pub device_order : Crypto → SlotRow → SubscriptionRow → DeviceOrder
device_order c d s = record {
  device_id = d.device_id;
  credential_hash = c.encode d.credential_hash;
  plan = s.plan_code;
  active = true;
  subscription_ends = value_time s.period_ends_at;
  period_ends = value_time s.period_ends_at;
  quota_bytes = s.quota_bytes;
}

abbrev pub is_unset : Option Time → Bool
is_unset none = true
is_unset (some t) = false

-- users.status='active'
abbrev pub is_active_user : String → Plane → Bool
is_active_user user p = any (λ (u : UserRow). u.user_id == user && not u.is_blocked) p.users

abbrev pub usable_order : Crypto → SlotRow → Option SubscriptionRow → List DeviceOrder
usable_order c d none = []
usable_order c d (some s) = if is_usable s.status then device_order c d s ∷ [] else []

abbrev pub orders_of : Crypto → Plane → Option SlotRow → List DeviceOrder
orders_of c p none = []
orders_of c p (some d) =
    if is_unset d.revoked_at && is_active_user d.user_id p
    then usable_order c d (find (of_user d.user_id) p.subscriptions)
    else []

-- The join of queueDeviceResync, by the assignments of the node.
unfoldable pub resync_orders : Crypto → String → Plane → List AssignmentRow → List DeviceOrder
resync_orders c node p [] = []
resync_orders c node p (a ∷ rest) =
    let others = resync_orders c node p rest in
    if a.node_id == node
    then orders_of c p (find (is_slot a.device_id) p.devices) ++ others
    else others

unfoldable pub queue_orders : Time → String → List DeviceOrder → Method Plane (Unit {0})
unfolding update queue
queue_orders now node [] = pure tt
queue_orders now node (o ∷ os) = do
  update (queue now node (device_upsert o))
  queue_orders now node os

unfoldable pub queue_device_resync : Crypto → Time → String → Method Plane (Unit {0})
unfolding select queue_orders resync_orders
queue_device_resync c now node = do
  orders ← select (λ p. resync_orders c node p p.node_assignments)
  queue_orders now node orders

abbrev pub is_connection : String → String × ℕ → Bool
is_connection node entry = entry.0 == node

-- h.online[node] = connection: the latest connection wins.
abbrev pub go_online : String → ℕ → Plane → Plane
go_online node connection p = record p {
  online = (node, connection) ∷ keep (λ entry. not (is_connection node entry)) p.online;
}

abbrev pub is_known : Option Bool → Bool
is_known none = false
is_known (some known) = known

-- Connect up to its loop: `verified` and `serial` are the headers of the mTLS proxy, `hello` the
-- first message, `none` where it is no hello.
unfoldable pub connect : Crypto → Time → Bool → String → Option Hello → ℕ → Method Plane (Unit {0})
unfolding select update valid_reality_hello queue_device_resync
connect c now verified serial hello connection = do
  guard (verified && not (serial == "")) (problem 401 "")
  h ← or_raise hello_required hello
  guard (not (h.node_id == "")) invalid_hello
  guard (not (has_reality h) || valid_reality_hello c h.reality_public_key h.reality_short_id)
      invalid_reality
  known ← attempt (select (λ p. bears_row serial (find (is_node h.node_id) p.nodes)))
  guard (is_known known) unknown_node
  attempt (update (on_node h.node_id (greeted now)))
  modify (go_online h.node_id connection)
  attempt (queue_device_resync c now h.node_id)
  pure tt

abbrev pub same_connection : String → ℕ → String × ℕ → Bool
same_connection node connection entry = is_connection node entry && eqb entry.1 connection

abbrev pub go_offline : String → ℕ → Plane → Plane
go_offline node connection p = record p {
  online = keep (λ entry. not (same_connection node connection entry)) p.online;
}

abbrev pub is_silent : Time → Option Time → Bool
is_silent now none = false
is_silent now (some t) = ltb (t + 30 * second) now

abbrev pub silenced : Time → NodeRow → NodeRow
silenced now n = if is_silent now n.last_heartbeat_at then record n { status = offline } else n

-- The deferred function of Connect.
unfoldable pub disconnect : Time → String → ℕ → Method Plane (Unit {0})
unfolding update
disconnect now node connection = do
  modify (go_offline node connection)
  attempt (update (on_node node (silenced now)))
  pure tt
