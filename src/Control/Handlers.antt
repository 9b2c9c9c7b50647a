-- ===== src/Control/Handlers.antt =====
-- internal/control/client.go, the cases of `handle`.
use rmvpn.Base.{
  ◌+◌, ◌*◌, String, Bool, false, not, ◌&&◌, ◌||◌, Option, none, some, List, [], ◌∷◌, ◌==◌, length,
  ltb, is_empty, if◌then◌else◌,
}
use rmvpn.Base.Int.{ℤ, pos}
use rmvpn.Base.Text.{parse_int}
use rmvpn.Base.Time.{Time, after, hour}
use rmvpn.Base.Outcome.{
  Result, ok, err, device_fields, unknown_plan, kicker_unavailable, override_invalid,
  too_many_events, quota_key_missing, quota_key_invalid, lease_of_other_node, lease_device_missing,
  feed_key_missing, node_key_missing, certificate_mismatch, certificate_too_short, invalid_encoding,
}
use rmvpn.Crypto.{Crypto, is_public_key}
use rmvpn.Model.{Device, policy_of}
use rmvpn.Protocol.{QuotaLease, verify_lease}
use rmvpn.Compliance.{SignedFeed}
use rmvpn.Compliance
use rmvpn.Compliance.Rules.{Codec, is_some}
use rmvpn.Exec.{M, pure, lift, guard, or_raise, attempt, ◌>>=◌, ◌>>◌}
use rmvpn.Store.State.{state_value, set_states}
use rmvpn.Store.Devices.{device_by_id, upsert_device, revoke_device, apply_policy_override}
use rmvpn.Store.Usage.{mark_usage_sent}
use rmvpn.Control.Messages.{
  DeviceUpsert, PolicyOverride, CertificateRotate, EventId, quoted, number, unreadable,
}

-- The interface `provisioner` of the client, which internal/xray/manager.go implements.
pub record Provisioner : Type 0 where
  pub upsert : Device → M (Unit {0})
  pub revoke : String → M (Unit {0})
  pub kick : String → M (Unit {0})

-- An X.509 certificate: its Ed25519 key, if it has one, and its end.
pub record Certificate : Type 0 where
  pub ed25519_key : Option String
  pub not_after : Time

-- The client with what it calls. `parse_pem` is pem.Decode and x509.ParseCertificate.
pub record Client : Type 0 where
  pub crypto : Crypto
  pub codec : Codec
  pub lease_bytes : String → String → String → ℤ → Time → Time → String → String
  pub parse_pem : String → Option Certificate
  pub kickers : List (String → M (Unit {0}))
  pub provisioner : Option Provisioner

abbrev pub joined : Result (Unit {0}) → Result (Unit {0}) → Result (Unit {0})
joined (ok _) r = r
joined (err e) r = err e

-- Every kicker is tried; errors.Join is the first of the errors.
unfoldable pub kick_all : List (String → M (Unit {0})) → String → M (Unit {0})
kick_all [] id w = (ok tt, w)
kick_all (kicker ∷ rest) id w =
    let first = kicker id w in
    let others = kick_all rest id first.1 in (joined first.0 others.0, others.1)

abbrev pub flat : {A : Type 0} → Option (Option A) → Option A
flat none = none
flat (some o) = o

abbrev pub text_or_empty : Option (Option String) → String
text_or_empty none = ""
text_or_empty (some none) = ""
text_or_empty (some (some s)) = s

abbrev pub to_device : DeviceUpsert → Device
to_device p = record {
  id = p.device_id;
  credential_hash = p.credential_hash;
  plan = p.plan;
  active = p.active;
  subscription_ends = p.subscription_ends;
  period_ends = p.period_ends;
  quota_bytes = p.quota_bytes;
  used_bytes = pos 0;
  lease_bytes = p.lease_bytes;
  lease_expires = p.lease_expires;
  override_up_bps = pos 0;
  override_down_bps = pos 0;
  override_p2p = false;
  override_expires = 0;
}

abbrev pub rotated : DeviceUpsert → Option Device → Bool
rotated p none = false
rotated p (some previous) = not (previous.credential_hash == p.credential_hash)

abbrev pub hand_on : Provisioner → Option Device → M (Unit {0})
hand_on x none = pure tt
hand_on x (some d) = x.upsert d

unfoldable pub provision_stored : Option Provisioner → String → M (Unit {0})
unfolding device_by_id
provision_stored none id = pure tt
provision_stored (some x) id = do stored ← device_by_id id; hand_on x stored

unfoldable pub handle_upsert : Client → DeviceUpsert → M (Unit {0})
unfolding kick_all device_by_id upsert_device provision_stored policy_of
handle_upsert c p = do
  guard (not (p.device_id == "" || p.credential_hash == "")) device_fields
  guard (is_some (policy_of p.plan)) unknown_plan
  previous ← attempt (device_by_id p.device_id)
  upsert_device (to_device p)
  if rotated p (flat previous)
      then (do attempt (kick_all c.kickers p.device_id); pure tt)
      else pure tt
  provision_stored c.provisioner p.device_id

-- A setting, or the one that stands in for it where the first is missing or cannot be read.
abbrev pub or_setting : String → Option (Option String) → M (Option String)
or_setting key none = state_value key
or_setting key (some none) = state_value key
or_setting key (some (some value)) = pure (some value)

-- err != nil || !ok
unfoldable pub setting_or : String → String → M (Option String)
unfolding state_value
setting_or key standby = do first ← attempt (state_value key); or_setting standby first

unfoldable pub provision : Option Provisioner → Device → M (Unit {0})
provision none d = pure tt
provision (some x) d = x.upsert d

unfoldable pub handle_lease : Client → Time → QuotaLease → M (Unit {0})
unfolding setting_or state_value device_by_id upsert_device verify_lease provision
handle_lease c now l = do
  setting ← attempt (setting_or "quota_public_key" "controller_public_key")
  encoded ← or_raise quota_key_missing (flat setting)
  key ← or_raise quota_key_invalid (c.crypto.decode encoded)
  guard (is_public_key key) quota_key_invalid
  lift (verify_lease c.crypto c.lease_bytes key now l)
  node_id ← attempt (state_value "node_id")
  guard (l.node_id == text_or_empty node_id) lease_of_other_node
  found ← attempt (device_by_id l.device_id)
  d ← or_raise lease_device_missing (flat found)
  upsert_device (record d { lease_bytes = l.bytes; lease_expires = l.expires_at })
  provision c.provisioner (record d { lease_bytes = l.bytes; lease_expires = l.expires_at })

unfoldable pub provisioner_revoke : Option Provisioner → String → M (Unit {0})
provisioner_revoke none id = pure tt
provisioner_revoke (some x) id = x.revoke id

unfoldable pub provisioner_kick : Option Provisioner → String → M (Unit {0})
provisioner_kick none id = pure tt
provisioner_kick (some x) id = x.kick id

unfoldable pub handle_revoke : Client → String → M (Unit {0})
unfolding revoke_device provisioner_revoke kick_all
handle_revoke c id = do revoke_device id; provisioner_revoke c.provisioner id; kick_all c.kickers id

unfoldable pub handle_kick : Client → String → M (Unit {0})
unfolding provisioner_kick kick_all
handle_kick c id = do
  guard (not (id == "")) device_fields
  guard (is_some c.provisioner || not (is_empty c.kickers)) kicker_unavailable
  provisioner_kick c.provisioner id
  kick_all c.kickers id

unfoldable pub handle_override : Time → PolicyOverride → M (Unit {0})
unfolding apply_policy_override
handle_override now o = do
  guard (not (o.device_id == "") && after o.expires_at now) override_invalid
  apply_policy_override o.device_id o.up_bps o.down_bps o.p2p o.expires_at

unfoldable pub handle_feed : Client → Time → SignedFeed → M (Unit {0})
unfolding setting_or Compliance.apply
handle_feed c now feed = do
  setting ← attempt (setting_or "compliance_public_key" "controller_public_key")
  key ← or_raise feed_key_missing (flat setting)
  Compliance.apply c.codec c.crypto now feed key

abbrev pub cons_id : Option ℤ → List ℤ → List ℤ
cons_id none ids = ids
cons_id (some id) ids = id ∷ ids

-- What is neither a number nor a text of one is passed over.
unfoldable pub event_ids : List EventId → List ℤ
unfolding parse_int
event_ids [] = []
event_ids (quoted text ∷ rest) = cons_id (parse_int text) (event_ids rest)
event_ids (number n ∷ rest) = n ∷ event_ids rest
event_ids (unreadable ∷ rest) = event_ids rest

unfoldable pub handle_usage_ack : Time → List EventId → M (Unit {0})
unfolding event_ids mark_usage_sent
handle_usage_ack now ids = do
  guard (not (ltb 5000 (length ids))) too_many_events
  mark_usage_sent (event_ids ids) now

abbrev pub same_key : Option String → String → Bool
same_key none key = false
same_key (some k) key = k == key

abbrev pub rotation_states : CertificateRotate → List (String × String)
rotation_states r =
    ("node_certificate", r.certificate_pem)
    ∷ (if r.controller_ca == "" then [] else ("controller_ca", r.controller_ca) ∷ [])

unfoldable pub handle_rotate : Client → Time → CertificateRotate → M (Unit {0})
unfolding state_value set_states
handle_rotate c now r = do
  certificate ← or_raise invalid_encoding (c.parse_pem r.certificate_pem)
  setting ← attempt (state_value "node_public_key")
  encoded ← or_raise node_key_missing (flat setting)
  key ← or_raise invalid_encoding (c.crypto.decode encoded)
  guard (same_key certificate.ed25519_key key) certificate_mismatch
  guard (after certificate.not_after (now + 7 * (24 * hour))) certificate_too_short
  set_states (rotation_states r)
