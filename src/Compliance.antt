-- ===== src/Compliance.antt =====
-- internal/compliance/service.go: the signed feed of blocking rules, and the filter that applies it.
-- The clock is an argument, read once for each call.
pub mod Rules
pub mod Feed
pub mod Filter
use Prim.Native.String.{◌++◌}
use rmvpn.Base.{
  ◌+◌, ◌*◌, String, Bool, true, false, not, ◌&&◌, Option, none, some, ◌==◌, if◌then◌else◌,
}
use rmvpn.Base.Text.{Runes}
use rmvpn.Base.Time.{Time, after, minute}
use rmvpn.Base.Outcome.{
  feed_metadata, feed_expired, feed_key, feed_signature_encoding, feed_signature, invalid_encoding,
}
use rmvpn.Crypto.{Crypto, is_public_key}
use rmvpn.Model.{Alert}
use rmvpn.Exec.{M, pure, lift, guard, or_raise, ◌>>=◌, ◌>>◌}
use rmvpn.Store.Notices.{ComplianceFeed, save_compliance, resolve_alert, set_alert, compliance}
use Rules.{Codec, validate_rules, blocked_by}

abbrev pub stale_alert : String
stale_alert = "COMPLIANCE_FEED_STALE"

-- `rules` is the raw JSON text.
pub record SignedFeed : Type 0 where
  pub version : String
  pub updated_at : Time
  pub expires_at : Time
  pub rules : String
  pub signature : String

abbrev pub has_metadata : SignedFeed → Bool
has_metadata feed =
    not (feed.version == "") && not (feed.rules == "") && after feed.expires_at feed.updated_at

abbrev pub is_current : Time → SignedFeed → Bool
is_current now feed = after feed.expires_at now && not (after feed.updated_at (now + 5 * minute))

module _ (k : Codec) where
  abbrev pub payload_of : SignedFeed → Option String → Option String
  payload_of feed none = none
  payload_of feed (some canonical) =
      some (k.feed_bytes feed.version feed.updated_at feed.expires_at canonical)

  unfoldable pub signing_payload : SignedFeed → Option String
  signing_payload feed = payload_of feed (k.canonical feed.rules)

  module _ (c : Crypto) where
    abbrev signed_with : String → SignedFeed → Option String → Option SignedFeed
    signed_with key feed none = none
    signed_with key feed (some payload) =
        some (record feed { signature = c.encode (c.sign key payload) })

    -- Sign; `none` is its error, which leaves the feed as it was.
    unfoldable pub sign : String → SignedFeed → Option SignedFeed
    unfolding signing_payload
    sign key feed = signed_with key feed (signing_payload feed)

    -- The checks of Apply, in their order; it returns when the feed may be saved.
    unfoldable pub check_feed : Time → SignedFeed → String → M (Unit {0})
    unfolding signing_payload validate_rules
    check_feed now feed public_key = do
      guard (has_metadata feed) feed_metadata
      guard (is_current now feed) feed_expired
      lift (validate_rules k (k.rules feed.rules))
      key ← or_raise feed_key (c.decode public_key)
      guard (is_public_key key) feed_key
      signature ← or_raise feed_signature_encoding (c.decode feed.signature)
      payload ← or_raise invalid_encoding (signing_payload feed)
      guard (c.verify key payload signature) feed_signature

    abbrev pub stored_feed : SignedFeed → ComplianceFeed
    stored_feed feed = record {
      version = feed.version;
      updated_at = feed.updated_at;
      expires_at = feed.expires_at;
      rules_json = feed.rules;
      signature = feed.signature;
    }

    unfoldable pub apply : Time → SignedFeed → String → M (Unit {0})
    unfolding check_feed save_compliance resolve_alert
    apply now feed public_key = do
      check_feed now feed public_key
      save_compliance (stored_feed feed)
      resolve_alert stale_alert

  abbrev pub stale_message : Option ComplianceFeed → String
  stale_message none = "Compliance feed has never been synchronized"
  stale_message (some feed) =
      "Compliance feed "
      ++ feed.version
      ++ " expired at "
      ++ k.rfc3339 feed.expires_at
      ++ "; the last valid rules remain active"

  abbrev pub is_live : Time → Option ComplianceFeed → Bool
  is_live now none = false
  is_live now (some feed) = after feed.expires_at now

  abbrev pub stale : Time → Option ComplianceFeed → Alert
  stale now found = record {
    code = stale_alert;
    severity = "critical";
    message = stale_message found;
    created_at = now;
    active = true;
  }

  unfoldable pub check : Time → M (Unit {0})
  unfolding compliance resolve_alert set_alert
  check now = do
    found ← compliance
    if is_live now found then resolve_alert stale_alert else set_alert (stale now found)

  abbrev rules_of : Option ComplianceFeed → Option (String × String)
  rules_of none = none
  rules_of (some feed) = some (feed.rules_json, feed.version)

  unfoldable pub current_rules : M (Option (String × String))
  unfolding compliance
  current_rules = do found ← compliance; pure (rules_of found)

  unfoldable pub filter_address : Runes → Option (String × String) → M Bool
  unfolding blocked_by
  filter_address address none = pure false
  filter_address address (some (raw, version)) = do
    rules ← or_raise invalid_encoding (k.rules raw)
    lift (blocked_by k rules address)

  unfoldable pub blocked : Runes → M Bool
  unfolding current_rules filter_address
  blocked address = do found ← current_rules; filter_address address found
