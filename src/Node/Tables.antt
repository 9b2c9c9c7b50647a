-- ===== src/Node/Tables.antt =====
-- The tables of internal/store/store.go (`migrate`), one record for a row of each. Columns that
-- hold a time are in whole seconds; INTEGER columns that hold a Boolean as 0 or 1 are Booleans.
use rmvpn.Base.{ℕ, String, Bool, Option, none, List, []}
use rmvpn.Base.Int.{ℤ}
use rmvpn.Model.{Plan}

pub record EnrollmentRow : Type 0 where
  pub token : String
  pub token_hash : String
  pub expires_at : ℕ
  pub claimed_at : Option ℕ

pub record DeviceRow : Type 0 where
  pub device_id : String
  pub credential_hash : String
  pub plan : Plan
  pub active : Bool
  pub subscription_ends : ℕ
  pub period_ends : ℕ
  pub quota_bytes : ℤ
  pub used_bytes : ℤ
  pub lease_bytes : ℤ
  pub lease_expires : ℕ
  pub override_up_bps : ℤ
  pub override_down_bps : ℤ
  pub override_p2p : Bool
  pub override_expires : ℕ

pub record UsageRow : Type 0 where
  pub id : ℕ
  pub device_id : String
  pub tx_bytes : ℤ
  pub rx_bytes : ℤ
  pub recorded_at : ℕ
  pub sent_at : Option ℕ

pub record AlertRow : Type 0 where
  pub code : String
  pub severity : String
  pub message : String
  pub created_at : ℕ
  pub active : Bool

pub record ComplianceRow : Type 0 where
  pub version : String
  pub updated_at : ℕ
  pub expires_at : ℕ
  pub rules_json : String
  pub signature : String

-- The two tables with `CHECK (id = 1)` hold one row or none. `last_event` is the sequence of the
-- AUTOINCREMENT column of `usage_events`.
pub record Store : Type 0 where
  pub state : List (String × String)
  pub enrollment : Option EnrollmentRow
  pub devices : List DeviceRow
  pub usage_events : List UsageRow
  pub last_event : ℕ
  pub alerts : List AlertRow
  pub compliance : Option ComplianceRow

abbrev pub migrated : Store
migrated = record {
  state = [];
  enrollment = none;
  devices = [];
  usage_events = [];
  last_event = 0;
  alerts = [];
  compliance = none;
}
