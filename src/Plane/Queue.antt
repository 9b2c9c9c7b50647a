-- ===== src/Plane/Queue.antt =====
-- The queue `node_commands` of the control plane and the lookups by key that the statements of
-- internal/controlplane share.
use rmvpn.Base.{
  ℕ, ◌+◌, ◌*◌, String, Bool, true, false, ◌&&◌, Option, none, some, [], ◌∷◌, ◌++◌, ◌==◌,
}
use rmvpn.Base.Time.{Time, hour}
use rmvpn.Plane.Tables.{
  Plane, SubscriptionRow, SlotRow, NodeRow, AssignmentRow, CommandRow, CommandStatus, queued,
  delivered, acked, nacked, overdue, Order, device_upsert, quota_lease, session_kick, device_revoke,
  grace_override, compliance_feed, certificate_rotate, posted,
}

abbrev pub of_user : String → SubscriptionRow → Bool
of_user user row = row.user_id == user

abbrev pub is_slot : String → SlotRow → Bool
is_slot device row = row.device_id == device

abbrev pub assigns : String → AssignmentRow → Bool
assigns device row = row.device_id == device

abbrev pub is_node : String → NodeRow → Bool
is_node node row = row.node_id == node

abbrev pub same_text : String → Option String → Bool
same_text s none = false
same_text s (some t) = t == s

-- IN ('pending','sent')
abbrev pub is_open : CommandStatus → Bool
is_open queued = true
is_open delivered = true
is_open acked = false
is_open nacked = false
is_open overdue = false

abbrev pub is_text : String → Option String → Bool
is_text = same_text

-- type='session.kick' AND payload->>'deviceId'=device
abbrev pub kicks : String → Order → Bool
kicks device (session_kick id reason) = id == device
kicks device (posted kind id payload) = kind == "session.kick" && same_text device id
kicks device (device_upsert order) = false
kicks device (quota_lease lease) = false
kicks device (device_revoke id reason) = false
kicks device (grace_override id ends) = false
kicks device (compliance_feed feed) = false
kicks device (certificate_rotate pem ends) = false

abbrev pub is_open_kick : String → String → CommandRow → Bool
is_open_kick node device row = row.node_id == node && kicks device row.order && is_open row.status

-- INSERT INTO node_commands(node_id,type,payload,expires_at) VALUES(…,now()+interval '24 hours')
unfoldable pub queue : Time → String → Order → Plane → Plane
queue now node order p = record p {
  node_commands = p.node_commands ++ row ∷ [];
  last_command = next;
}
  where
    next : ℕ
    next = p.last_command + 1

    row : CommandRow
    row = record {
      id = next;
      node_id = node;
      order = order;
      status = queued;
      attempts = 0;
      not_before = now;
      expires_at = now + 24 * hour;
      created_at = now;
    }
