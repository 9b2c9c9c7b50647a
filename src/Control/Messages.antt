-- ===== src/Control/Messages.antt =====
-- The envelopes of protocol/v2/protocol.go that reach the node, after json.Unmarshal.
use rmvpn.Base.{String, Bool, List}
use rmvpn.Base.Int.{ℤ}
use rmvpn.Base.Text.{Runes}
use rmvpn.Base.Time.{Time}
use rmvpn.Model.{Plan}
use rmvpn.Protocol.{QuotaLease}
use rmvpn.Compliance.{SignedFeed}

pub record DeviceUpsert : Type 0 where
  pub device_id : String
  pub credential_hash : String
  pub plan : Plan
  pub active : Bool
  pub subscription_ends : Time
  pub period_ends : Time
  pub quota_bytes : ℤ
  pub lease_bytes : ℤ
  pub lease_expires : Time

pub record PolicyOverride : Type 0 where
  pub device_id : String
  pub up_bps : ℤ
  pub down_bps : ℤ
  pub p2p : Bool
  pub expires_at : Time

pub record CertificateRotate : Type 0 where
  pub certificate_pem : String
  pub controller_ca : String

-- An entry of `eventIds` is a JSON string, a number that fits int64, or something else.
pub data EventId : Type 0 where
  quoted : Runes → EventId
  number : ℤ → EventId
  unreadable : EventId

-- The type of a message with its data; `malformed` is a known type whose data does not unmarshal.
pub data Command : Type 0 where
  device_upsert : DeviceUpsert → Command
  quota_lease : QuotaLease → Command
  device_revoke session_kick : String → Command
  policy_override : PolicyOverride → Command
  compliance_feed : SignedFeed → Command
  usage_ack : List EventId → Command
  certificate_rotate : CertificateRotate → Command
  drain update : Command
  unknown malformed : String → Command

pub record Envelope : Type 0 where
  pub message_id : String
  pub command : Command
