-- ===== src/Plane/Tables.antt =====
-- The tables of internal/controlplane/migrations/001_initial.sql, one record for a row of each. The
-- UUIDs of commands are numbers, drawn in the order of the INSERTs.
use rmvpn.Base.{ℕ, String, Bool, Option, List}
use rmvpn.Base.Int.{ℤ}
use rmvpn.Base.Time.{Time}
use rmvpn.Protocol.{QuotaLease}
use rmvpn.Compliance.{SignedFeed}

pub record UserRow : Type 0 where
  pub user_id : String
  pub telegram_subject : String
  pub is_blocked : Bool
  pub terms_version : Option String

pub record RoleRow : Type 0 where
  pub user_id : String
  pub role : String

pub record PlanRow : Type 0 where
  pub code : String
  pub price_kopecks : ℤ
  pub period_seconds : ℤ
  pub device_limit : ℕ
  pub quota_bytes : ℤ

pub record WalletRow : Type 0 where
  pub user_id : String
  pub balance_kopecks : ℤ

pub record LedgerRow : Type 0 where
  pub user_id : String
  pub amount_kopecks : ℤ
  pub balance_after_kopecks : ℤ
  pub idempotency_key : String

-- The values that the CHECK on `subscriptions.status` allows.
pub data SubscriptionStatus : Type 0 where
  pending_trial in_force in_grace expired suspended : SubscriptionStatus

pub record SubscriptionRow : Type 0 where
  pub user_id : String
  pub plan_code : String
  pub pending_plan_code : Option String
  pub status : SubscriptionStatus
  pub period_started_at : Option Time
  pub period_ends_at : Option Time
  pub grace_ends_at : Option Time
  pub quota_bytes : ℤ
  pub used_bytes : ℤ

pub record FingerprintRow : Type 0 where
  pub telegram_subject : String
  pub hwid_hmac : String

pub record SlotRow : Type 0 where
  pub device_id : String
  pub user_id : String
  pub slot : ℕ
  pub hwid_hmac : Option String
  pub credential_hash : String
  pub subscription_token_hash : String
  pub last_bound_at : Option Time
  pub last_seen_at : Option Time
  pub revoked_at : Option Time

-- The values that the CHECK on `nodes.status` allows.
pub data NodeStatus : Type 0 where
  pending healthy degraded offline draining : NodeStatus

-- `supports_websocket` is whether `capabilities` has fallback.vless-ws-tls.
pub record NodeRow : Type 0 where
  pub node_id : String
  pub status : NodeStatus
  pub certificate_serial : Option String
  pub next_certificate_serial : Option String
  pub compliance_version : Option String
  pub compliance_fetched_at : Option Time
  pub last_heartbeat_at : Option Time
  pub supports_websocket : Bool

pub record AssignmentRow : Type 0 where
  pub device_id : String
  pub node_id : String
  pub provisioned_at : Option Time

-- protocol.DeviceUpsert: the fields of the control plane's message, which has no lease.
pub record DeviceOrder : Type 0 where
  pub device_id : String
  pub credential_hash : String
  pub plan : String
  pub active : Bool
  pub subscription_ends : Time
  pub period_ends : Time
  pub quota_bytes : ℤ

-- `type` and `payload` of a command. `posted` is what an administrator sends: a type, the payload's
-- `deviceId` if it has one, and the payload.
pub data Order : Type 0 where
  device_upsert : DeviceOrder → Order
  quota_lease : QuotaLease → Order
  session_kick device_revoke : (device_id reason : String) → Order
  grace_override : (device_id : String) → Time → Order
  compliance_feed : SignedFeed → Order
  certificate_rotate : (certificate_pem : String) → Time → Order
  posted : (kind : String) → Option String → (payload : String) → Order

-- The values that the CHECK on `node_commands.status` allows.
pub data CommandStatus : Type 0 where
  queued delivered acked nacked overdue : CommandStatus

pub record CommandRow : Type 0 where
  pub id : ℕ
  pub node_id : String
  pub order : Order
  pub status : CommandStatus
  pub attempts : ℕ
  pub not_before : Time
  pub expires_at : Time
  pub created_at : Time

pub record LeaseRow : Type 0 where
  pub lease : QuotaLease
  pub consumed_bytes : ℤ

pub record EventRow : Type 0 where
  pub node_id : String
  pub event_id : String
  pub device_id : String
  pub rx_bytes : ℤ
  pub tx_bytes : ℤ

pub record NoticeRow : Type 0 where
  pub user_id : String
  pub kind : String
  pub scheduled_at : Time
  pub sent_at : Option Time
  pub attempts : ℕ

pub record AuditRow : Type 0 where
  pub actor_user_id : String
  pub action : String
  pub subject_id : String

-- What the hub has written to a node's connection.
pub data Written : Type 0 where
  command_sent : ℕ → Order → Written
  usage_acked : (message_id : String) → (event_ids : List String) → Written

-- The tables, the nodes that are connected, what was written to them, and whether the database infers
-- the types of parameters that a statement does not cast.
pub record Plane : Type 0 where
  pub users : List UserRow
  pub user_roles : List RoleRow
  pub plans : List PlanRow
  pub wallets : List WalletRow
  pub ledger_entries : List LedgerRow
  pub subscriptions : List SubscriptionRow
  pub trial_fingerprints : List FingerprintRow
  pub devices : List SlotRow
  pub nodes : List NodeRow
  pub node_assignments : List AssignmentRow
  pub node_commands : List CommandRow
  pub last_command : ℕ
  pub quota_leases : List LeaseRow
  pub usage_events : List EventRow
  pub audit_events : List AuditRow
  pub notifications : List NoticeRow
  pub online : List (String × ℕ)
  pub written : List (String × Written)
  pub infers_types : Bool
