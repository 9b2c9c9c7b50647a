-- ===== src/Plane/Hub/Messages.antt =====
-- internal/controlplane/nodehub.go, `readLoop`: the messages of a connected node.
use rmvpn.Base.{
  ℕ, String, Bool, true, false, ◌&&◌, Option, none, some, List, ◌==◌, find, change, if◌then◌else◌,
}
use rmvpn.Base.Time.{Time}
use rmvpn.Plane.Tables.{
  Plane, NodeRow, NodeStatus, CommandRow, acked, nacked, AssignmentRow, Order, device_upsert,
  compliance_feed, certificate_rotate, posted,
}
use rmvpn.Plane.Queue.{same_text}
use rmvpn.Plane.Hub.Intake.{UsageReport, usage}
use rmvpn.Plane.Hub.Delivery.{has_command}
use rmvpn.Exec.{Method, pure, attempt, update, ◌>>◌}
use rmvpn.Plane.Hub.Connection.{on_node}

-- What a node sends, after json.Unmarshal. A heartbeat whose status is not one of the column's is
-- refused by its CHECK: `none`. `reply_to` is the ID of a command, or a number of none.
pub data NodeMessage : Type 0 where
  heartbeat : Option NodeStatus → NodeMessage
  answer : (accepted : Bool) (reply_to : ℕ) → NodeMessage
  usage_batch : (message_id : String) → Option (List UsageReport) → NodeMessage
  other_message : NodeMessage

abbrev pub beaten : Time → NodeStatus → NodeRow → NodeRow
beaten now status n = record n { status = status; last_heartbeat_at = some now }

unfoldable pub take_heartbeat : Time → String → Option NodeStatus → Method Plane (Unit {0})
unfolding update
take_heartbeat now node none = pure tt
take_heartbeat now node (some status) = do
  attempt (update (on_node node (beaten now status)))
  pure tt

abbrev pub is_answered : String → ℕ → CommandRow → Bool
is_answered node id c = has_command id c && c.node_id == node

abbrev pub answered : Bool → CommandRow → CommandRow
answered accepted c = record c { status = if accepted then acked else nacked }

abbrev pub record_answer : Bool → String → ℕ → Plane → Plane
record_answer accepted node id p = record p {
  node_commands = change (is_answered node id) (answered accepted) p.node_commands;
}

-- c.id=… AND c.node_id=…
abbrev pub order_of : Option CommandRow → Option Order
order_of none = none
order_of (some c) = some c.order

abbrev pub answered_order : String → ℕ → Plane → Option Order
answered_order node id p = order_of (find (is_answered node id) p.node_commands)

-- The statement on compliance: c.type='compliance.feed'.
abbrev pub note_feed : Time → String → Option Order → Plane → Plane
note_feed now node (some (compliance_feed feed)) p =
    on_node node
      (λ n. record n { compliance_fetched_at = some now; compliance_version = some feed.version }) p
note_feed now node o p = p

abbrev pub rotated : NodeRow → NodeRow
rotated n = record n {
  certificate_serial = n.next_certificate_serial;
  next_certificate_serial = none;
}

-- c.type='certificate.rotate'
abbrev pub is_rotation : Option Order → Bool
is_rotation (some (certificate_rotate pem ends)) = true
is_rotation (some (posted kind id payload)) = kind == "certificate.rotate"
is_rotation o = false

abbrev pub note_rotation : String → Option Order → Plane → Plane
note_rotation node o p = if is_rotation o then on_node node rotated p else p

abbrev pub provisioned : Time → AssignmentRow → AssignmentRow
provisioned now a = record a { provisioned_at = some now }

abbrev pub is_assigned : String → Option String → AssignmentRow → Bool
is_assigned node device a = a.node_id == node && same_text a.device_id device

-- c.type='device.upsert', and the payload's deviceId
abbrev pub upserted_device : Option Order → Option String
upserted_device (some (device_upsert o)) = some o.device_id
upserted_device (some (posted kind id payload)) = if kind == "device.upsert" then id else none
upserted_device o = none

abbrev pub note_device : Time → String → Option Order → Plane → Plane
note_device now node o p = record p {
  node_assignments =
      change (is_assigned node (upserted_device o)) (provisioned now) p.node_assignments;
}

unfoldable pub note_success : Time → String → ℕ → Method Plane (Unit {0})
unfolding update
note_success now node id = do
  attempt (update (λ p. note_feed now node (answered_order node id p) p))
  attempt (update (λ p. note_rotation node (answered_order node id p) p))
  attempt (update (λ p. note_device now node (answered_order node id p) p))
  pure tt

unfoldable pub take_answer : Time → String → Bool → ℕ → Method Plane (Unit {0})
unfolding update note_success
take_answer now node accepted id = do
  attempt (update (record_answer accepted node id))
  if accepted then note_success now node id else pure tt

-- One round of readLoop.
unfoldable pub read_message : Time → String → NodeMessage → Method Plane (Unit {0})
unfolding take_heartbeat take_answer usage
read_message now node (heartbeat status) = take_heartbeat now node status
read_message now node (answer accepted id) = take_answer now node accepted id
read_message now node (usage_batch message_id body) = do
  attempt (usage now node message_id body)
  pure tt
read_message now node other_message = pure tt
