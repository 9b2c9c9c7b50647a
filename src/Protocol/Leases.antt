-- ===== src/Protocol/Leases.antt =====
-- Signed quota leases: what a verified lease is, and that a signed one verifies.
use rmvpn.Base.{
  Option, none, ◌+◌, ◌*◌, ◌≤◌, ◌<◌, ◌≡◌, ◌≢◌, ◌↔◌, refl, String, true, some, arith, eq_iff,
}
use rmvpn.Base.Int.{ℤ, pos, ◌≤ℤ◌}
use rmvpn.Base.Time.{Time, minute, hour}
use rmvpn.Base.Outcome.{ok}
use rmvpn.Crypto.{Crypto}
use rmvpn.Protocol.{
  QuotaLease, verify_lease, sign_lease, signing_bytes, has_fields, in_window, check_signature,
}

-- The fields and the times that a lease must have at `now`.
pub record IsUsable (now : Time) (l : QuotaLease) : Type 0 where
  pub named : l.lease_id ≢ ""
  pub for_device : l.device_id ≢ ""
  pub for_node : l.node_id ≢ ""
  pub nonnegative : pos 0 ≤ℤ l.bytes
  pub unexpired : now < l.expires_at
  pub issued : l.issued_at ≤ now + 5 * minute
  pub within_day : l.expires_at ≤ l.issued_at + 24 * hour

module _ (c : Crypto)
    (lease_bytes : String → String → String → ℤ → Time → Time → String → String) where
  usable :
      (now : Time) (l : QuotaLease)
      → has_fields c lease_bytes l ≡ true
      → in_window c lease_bytes now l ≡ true
      → IsUsable now l
  usable now l f t = record {
    named = λ e. ground (arith, eq_iff l.lease_id "");
    for_device = λ e. ground (arith, eq_iff l.device_id "");
    for_node = λ e. ground (arith, eq_iff l.node_id "");
    nonnegative = ground arith;
    unexpired = ground arith;
    issued = ground arith;
    within_day = ground arith;
  }

  fields : (now : Time) (l : QuotaLease) → IsUsable now l → has_fields c lease_bytes l ≡ true
  fields now l u = ground (
    arith,
    u.named,
    u.for_device,
    u.for_node,
    u.nonnegative,
    eq_iff l.lease_id "",
    eq_iff l.device_id "",
    eq_iff l.node_id "",
  )

  window : (now : Time) (l : QuotaLease) → IsUsable now l → in_window c lease_bytes now l ≡ true
  window now l u = ground (arith, u.unexpired, u.issued, u.within_day)

  module _ (key : String) (now : Time) (l : QuotaLease) where
    signed_by :
        (o : Option String)
        → check_signature c lease_bytes key l o ≡ ok tt
        → (signature : String) × (o ≡ some signature)
          × (c.verify key (signing_bytes c lease_bytes l) signature ≡ true)
    unfolding check_signature
    signed_by none e = cc
    signed_by (some signature) e = (signature, refl, ground arith)

    verified :
        verify_lease c lease_bytes key now l ≡ ok tt
        → IsUsable now l
          × (signature : String) × (c.decode l.signature ≡ some signature)
          × (c.verify key (signing_bytes c lease_bytes l) signature ≡ true)
    unfolding verify_lease
    verified e =
        let s = signed_by (c.decode l.signature) (ground arith) in
        (usable now l (ground arith) (ground arith), s.0, s.1, s.2)

    accepted :
        IsUsable now l
        → (signature : String) → c.decode l.signature ≡ some signature
        → c.verify key (signing_bytes c lease_bytes l) signature ≡ true
        → verify_lease c lease_bytes key now l ≡ ok tt
    unfolding verify_lease check_signature
    accepted u s d v = ground (arith, fields now l u, window now l u)

  -- A lease is accepted exactly if it is usable now and carries a signature of its own bytes.
  pub verify_lease_iff :
      (key : String) (now : Time) (l : QuotaLease)
      → (verify_lease c lease_bytes key now l ≡ ok tt) ↔ (
          IsUsable now l
          × (signature : String) × (c.decode l.signature ≡ some signature)
          × (c.verify key (signing_bytes c lease_bytes l) signature ≡ true))
  verify_lease_iff key now l = (verified key now l, λ h. accepted key now l h.0 h.1 h.2 h.3)

  -- A usable lease that was signed with a private key is accepted under its public key.
  pub verify-sign_lease :
      (key : String) (now : Time) (l : QuotaLease)
      → IsUsable now l
      → verify_lease c lease_bytes (c.public_key key) now (sign_lease c lease_bytes key l) ≡ ok tt
  unfolding sign_lease signing_bytes
  verify-sign_lease key now l u =
      accepted (c.public_key key) now (sign_lease c lease_bytes key l)
        (record {
          named = u.named;
          for_device = u.for_device;
          for_node = u.for_node;
          nonnegative = u.nonnegative;
          unexpired = u.unexpired;
          issued = u.issued;
          within_day = u.within_day;
        })
        (c.sign key (signing_bytes c lease_bytes l)) (c.decode-encode _) (c.verify-sign _ _)
