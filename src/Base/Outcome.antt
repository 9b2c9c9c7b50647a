-- ===== src/Base/Outcome.antt =====
-- Go's pair of a value and an error. A constructor of `Error` stands for one message of the source.
use Prim.Native.Nat.{ℕ}
use Prim.Native.String.{String}
use mathlib.Core.Bool.{Bool, true, false}

pub data Error : Type 0 where
  -- the database, the Xray API or the traffic API failed
  backend : Error
  -- store.go: a UNIQUE column, sql.ErrNoRows, a column that does not scan into int64
  constraint_violated no_rows value_out_of_range : Error
  -- "enrollment token is invalid, expired or already used"
  claim_refused : Error
  -- QuotaLease.Verify
  lease_fields lease_window lease_signature_encoding lease_signature : Error
  -- compliance.Apply, validateRules and Blocked
  feed_metadata feed_expired feed_key feed_signature_encoding feed_signature : Error
  rule_domain rule_cidr rule_port : Error
  -- vless.IDFromCredentialHash, and Manager.dial
  credential_hash_invalid api_address_missing : Error
  -- Client.handle
  device_fields unknown_plan kicker_unavailable override_invalid too_many_events unsupported : Error
  quota_key_missing quota_key_invalid lease_of_other_node lease_device_missing : Error
  feed_key_missing node_key_missing certificate_mismatch certificate_too_short : Error
  -- enrollment.Service
  not_initialized already_claimed token_expired identity_incomplete node_id_missing : Error
  claim_token_missing controller_url_invalid controller_key_invalid certificate_invalid : Error
  quota_public_key_invalid compliance_public_key_invalid : Error
  -- NodeHub.Connect: the reasons with which the socket is closed
  hello_required invalid_hello invalid_reality unknown_node : Error
  -- App.provisionDevice
  signing_key_missing subscription_inactive no_quota_remains : Error
  -- controlplane/app.go: an HTTP answer with this status and this kind of problem
  problem : ℕ → String → Error
  -- parseDomains
  feed_domains_invalid : Error
  -- the input is not the JSON, base64 or PEM text that is wanted
  invalid_encoding : Error

pub data Result {ℓ} (A : Type ℓ) : Type ℓ where
  ok : A → Result A
  err : Error → Result A

abbrev pub is_ok {ℓ} : {A : Type ℓ} → Result A → Bool
is_ok (ok a) = true
is_ok (err e) = false
