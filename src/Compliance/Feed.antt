-- ===== src/Compliance/Feed.antt =====
-- Which feed of rules a node accepts, and what a refused one leaves.
use Prim.Native.String.{len}
use rmvpn.Base.{
  ◌+◌, ◌*◌, ◌≤◌, ◌<◌, ◌≡◌, ◌≢◌, refl, String, [], true, Option, none, some, arith, eq_iff, ◌⊎◌, inl,
  inr, Bool-cases, ap, ◌∙◌,
}
use rmvpn.Base.Time.{Time, minute}
use rmvpn.Base.Outcome.{Result, ok, err}
use rmvpn.Crypto.{Crypto}
use rmvpn.Exec.{World, M, failing, follow, ◌>>=◌}
use rmvpn.Store.Notices.{feed_row, save_compliance, resolve_alert}
use rmvpn.Compliance.Rules.{Codec, validate_rules}
use rmvpn.Compliance.{
  stale_alert, SignedFeed, has_metadata, is_current, signing_payload, sign, check_feed, stored_feed,
  apply,
}

-- A feed that is complete, in force at `now`, has valid rules, and is signed by `public_key`.
pub record IsSigned (k : Codec) (c : Crypto) (now : Time) (feed : SignedFeed) (public_key : String)
    : Type 0 where
  pub named : feed.version ≢ ""
  pub ruled : feed.rules ≢ ""
  pub unexpired : now < feed.expires_at
  pub ordered : feed.updated_at < feed.expires_at
  pub updated : feed.updated_at ≤ now + 5 * minute
  pub valid : validate_rules k (k.rules feed.rules) ≡ ok tt
  pub key : String
  pub key_decoded : c.decode public_key ≡ some key
  pub key_size : len key ≡ 32
  pub signature : String
  pub signature_decoded : c.decode feed.signature ≡ some signature
  pub payload : String
  pub payload_known : signing_payload k feed ≡ some payload
  pub verified : c.verify key payload signature ≡ true

abbrev save : Codec → Crypto → SignedFeed → M (Unit {0})
save k c feed = save_compliance (stored_feed k c feed) >>= λ _. resolve_alert stale_alert

saved :
    (k : Codec) (c : Crypto) (feed : SignedFeed) (r : Result (Unit {0})) (w : World)
    → let after_it = (follow (λ _. save k c feed) r w).1.held.store.compliance in
      (after_it ≡ w.held.store.compliance)
      ⊎ ((r ≡ ok tt) × (after_it ≡ some (feed_row (stored_feed k c feed))))
unfolding save_compliance resolve_alert
saved k c feed (err x) w = inl refl
saved k c feed (ok u) w = elim (Bool-cases (failing w.faults)) [
  | inl e ↦ inl (ground (arith, e))
  | inr e ↦ inr (refl, ground (arith, e))
]

save_ok :
    (k : Codec) (c : Crypto) (feed : SignedFeed) (r : Result (Unit {0})) (w : World)
    → (follow (λ _. save k c feed) r w).0 ≡ ok tt
    → (r ≡ ok tt)
      × ((follow (λ _. save k c feed) r w).1.held.store.compliance
          ≡ some (feed_row (stored_feed k c feed)))
unfolding save_compliance resolve_alert
save_ok k c feed (err x) w e = cc
save_ok k c feed (ok u) w e = (refl, ground arith)

module _ (k : Codec) (c : Crypto) (now : Time) (feed : SignedFeed) (public_key : String)
    (w : World) where
  check_world : (check_feed k c now feed public_key w).1 ≡ w
  unfolding check_feed
  check_world = ground arith

  checked :
      (key signature payload : Option String)
      → c.decode public_key ≡ key
      → c.decode feed.signature ≡ signature
      → signing_payload k feed ≡ payload
      → (check_feed k c now feed public_key w).0 ≡ ok tt
      → IsSigned k c now feed public_key
  unfolding check_feed
  checked none signature payload d s p e = absurd (ground arith)
  checked (some key) none payload d s p e = absurd (ground arith)
  checked (some key) (some signature) none d s p e = absurd (ground arith)
  checked (some key) (some signature) (some payload) d s p e = record {
    named = λ h. ground (arith, eq_iff feed.version "");
    ruled = λ h. ground (arith, eq_iff feed.rules "");
    unexpired = ground arith;
    ordered = ground arith;
    updated = ground arith;
    valid = ground arith;
    key = key;
    key_decoded = d;
    key_size = ground arith;
    signature = signature;
    signature_decoded = s;
    payload = payload;
    payload_known = p;
    verified = ground arith;
  }

  -- Whatever fails, afterwards the node holds the rules it held before, or this feed, and this feed
  -- only if it is signed and in force.
  pub apply_safe :
      let after_it = (apply k c now feed public_key w).1.held.store.compliance in
      (after_it ≡ w.held.store.compliance)
      ⊎ (IsSigned k c now feed public_key × (after_it ≡ some (feed_row (stored_feed k c feed))))
  unfolding apply
  apply_safe =
      elim (saved k c feed (check_feed k c now feed public_key w).0
        (check_feed k c now feed public_key w).1) [
          | inl e ↦ inl (e ∙ ap (λ v. v.held.store.compliance) check_world)
          | inr h ↦ inr (checked _ _ _ refl refl refl h.0, h.1)
        ]

  -- A feed whose application returns is signed and in force, and is the stored one.
  pub apply_sound :
      (apply k c now feed public_key w).0 ≡ ok tt
      → IsSigned k c now feed public_key
        × ((apply k c now feed public_key w).1.held.store.compliance
            ≡ some (feed_row (stored_feed k c feed)))
  unfolding apply
  apply_sound e =
      let h =
        save_ok k c feed (check_feed k c now feed public_key w).0
          (check_feed k c now feed public_key w).1 e in
      (checked _ _ _ refl refl refl h.0, h.1)

passed :
    (k : Codec) (c : Crypto) (now : Time) (feed : SignedFeed) (public_key : String) (w : World)
    → (check_feed k c now feed public_key w).0 ≡ ok tt
    → w.faults ≡ []
    → (apply k c now feed public_key w).0 ≡ ok tt
unfolding apply save_compliance resolve_alert
passed k c now feed public_key w e f = ground (arith, check_world k c now feed public_key w)

module _ (k : Codec) (c : Crypto) where
  signed_as :
      (key : String) (feed signed : SignedFeed) (o : Option String)
      → signing_payload k feed ≡ o
      → sign k c key feed ≡ some signed
      → (payload : String) × (signing_payload k feed ≡ some payload)
        × (signed ≡ record feed { signature = c.encode (c.sign key payload) })
  unfolding sign
  signed_as key feed signed none p s = absurd (ground arith)
  signed_as key feed signed (some payload) p s = (payload, p, ground arith)

  accepted :
      (now : Time) (key payload : String) (feed : SignedFeed) (w : World)
      → let public = c.public_key key in
        signing_payload k feed ≡ some payload
        → has_metadata feed ≡ true
        → is_current now feed ≡ true
        → validate_rules k (k.rules feed.rules) ≡ ok tt
        → len public ≡ 32
        → (check_feed k c now
            (record feed { signature = c.encode (c.sign key payload) })
            (c.encode public)
            w).0
          ≡ ok tt
  unfolding check_feed signing_payload
  accepted now key payload feed w p m i v l = ground (
    arith,
    c.decode-encode (c.public_key key),
    c.decode-encode (c.sign key payload),
    c.verify-sign key payload,
  )

  -- A feed that is complete, in force and of valid rules, signed with a private key of which the
  -- public half has 32 bytes, is accepted under that half, if the database answers.
  pub apply-sign :
      (now : Time) (key : String) (feed signed : SignedFeed) (w : World)
      → sign k c key feed ≡ some signed
      → has_metadata feed ≡ true
      → is_current now feed ≡ true
      → validate_rules k (k.rules feed.rules) ≡ ok tt
      → len (c.public_key key) ≡ 32
      → w.faults ≡ []
      → (apply k c now signed (c.encode (c.public_key key)) w).0 ≡ ok tt
  apply-sign now key feed signed w s m i v l f =
      let (payload, p, e) = signed_as key feed signed _ refl s in
      ap (λ x. (apply k c now x (c.encode (c.public_key key)) w).0) e
      ∙ passed k c now _ _ w (accepted now key payload feed w p m i v l) f
