-- ===== src/Protocol.antt =====
-- protocol/v2/protocol.go: the messages of the control channel, and signed quota leases.
pub mod Leases
use rmvpn.Base.{◌+◌, ◌*◌, String, Bool, not, ◌||◌, Option, none, some, ◌==◌, ltb, if◌then◌else◌}
use rmvpn.Base.Int.{ℤ, pos, ltb_ℤ}
use rmvpn.Base.Time.{Time, after, minute, hour}
use rmvpn.Base.Outcome.{
  Result, ok, err, lease_fields, lease_window, lease_signature, lease_signature_encoding,
}
use rmvpn.Crypto.{Crypto}

pub record QuotaLease : Type 0 where
  pub lease_id : String
  pub device_id : String
  pub node_id : String
  pub bytes : ℤ
  pub issued_at : Time
  pub expires_at : Time
  pub key_id : String
  pub signature : String

-- `lease_bytes` is json.Marshal of the fields of a lease but its signature, which never fails on
-- them.
module _ (c : Crypto)
    (lease_bytes : String → String → String → ℤ → Time → Time → String → String) where
  unfoldable pub signing_bytes : QuotaLease → String
  signing_bytes l =
      lease_bytes l.lease_id l.device_id l.node_id l.bytes l.issued_at l.expires_at l.key_id

  unfoldable pub sign_lease : String → QuotaLease → QuotaLease
  unfolding signing_bytes
  sign_lease key l = record l { signature = c.encode (c.sign key (signing_bytes l)) }

  -- l.ExpiresAt.Sub(l.IssuedAt) > 24*time.Hour
  abbrev pub too_long : QuotaLease → Bool
  too_long l = ltb (l.issued_at + 24 * hour) l.expires_at

  abbrev pub has_fields : QuotaLease → Bool
  has_fields l =
      not (l.lease_id == "" || l.device_id == "" || l.node_id == "" || ltb_ℤ l.bytes (pos 0))

  abbrev pub in_window : Time → QuotaLease → Bool
  in_window now l =
      not (not (after l.expires_at now) || after l.issued_at (now + 5 * minute) || too_long l)

  unfoldable pub check_signature : String → QuotaLease → Option String → Result (Unit {0})
  unfolding signing_bytes
  check_signature key l none = err lease_signature_encoding
  check_signature key l (some signature) =
      if c.verify key (signing_bytes l) signature then ok tt else err lease_signature

  unfoldable pub verify_lease : String → Time → QuotaLease → Result (Unit {0})
  unfolding check_signature
  verify_lease key now l =
      if not (has_fields l)
      then err lease_fields
      else if not (in_window now l)
      then err lease_window
      else check_signature key l (c.decode l.signature)
