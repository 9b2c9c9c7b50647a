-- ===== src/Tests/Filtering.antt =====
-- A feed of rules, and an address that its rules block.
use rmvpn.Base.{Bool, true, ◌↔◌, none, some, refl, ◌≡◌, ◌⊎◌}
use rmvpn.Base.Text.{codes, trim_space, has_any}
use rmvpn.Base.Outcome.{ok}
use rmvpn.Address.{host_of, port_of}
use rmvpn.Exec.{exec, call}
use rmvpn.Store.Notices.{feed_row, save_compliance, resolve_alert}
use rmvpn.Compliance.Rules.{valid_domain, check_each, validate_rules, blocked_by}
use rmvpn.Compliance.{SignedFeed, sign, signing_payload, check_feed, stored_feed, apply}
use rmvpn.Compliance.Feed.{IsSigned, apply_safe, apply_sound, apply-sign}
use rmvpn.Compliance.Filter.{IsBlocked, blocked_by_valid}
use rmvpn.Tests.Samples.{sample, digest, toy_crypto, toy_codec, sample_rules}

abbrev feed : SignedFeed
feed = record {
  version = "v1";
  updated_at = 5;
  expires_at = 100;
  rules = "rules";
  signature = "rules";
}

rules-valid : validate_rules toy_codec (some sample_rules) ≡ ok tt
unfolding validate_rules check_each valid_domain trim_space has_any
rules-valid = refl

applied : (apply toy_codec toy_crypto 10 feed digest sample).0 ≡ ok tt
unfolding apply check_feed signing_payload validate_rules check_each valid_domain trim_space has_any
    save_compliance resolve_alert exec call
applied = refl

apply_safe_example :
    let after_it = (apply toy_codec toy_crypto 10 feed digest sample).1.held.store.compliance in
    (after_it ≡ none)
    ⊎ (IsSigned toy_codec toy_crypto 10 feed digest
        × (after_it ≡ some (feed_row (stored_feed toy_codec toy_crypto feed))))
apply_safe_example = apply_safe toy_codec toy_crypto 10 feed digest sample

apply_sound_example :
    IsSigned toy_codec toy_crypto 10 feed digest
    × ((apply toy_codec toy_crypto 10 feed digest sample).1.held.store.compliance
        ≡ some (feed_row (stored_feed toy_codec toy_crypto feed)))
apply_sound_example = apply_sound toy_codec toy_crypto 10 feed digest sample applied

signed : sign toy_codec toy_crypto "private" feed ≡ some feed
unfolding sign signing_payload
signed = refl

apply-sign_example : (apply toy_codec toy_crypto 10 feed digest sample).0 ≡ ok tt
apply-sign_example =
    apply-sign toy_codec toy_crypto 10 "private" feed feed sample signed refl refl rules-valid refl
      refl

blocked_by_valid_example :
    let address = codes "mail.example:25" in
    (hit : Bool) × (blocked_by toy_codec sample_rules address ≡ ok hit)
    × ((hit ≡ true) ↔ IsBlocked toy_codec sample_rules (host_of address) (port_of address))
blocked_by_valid_example =
    blocked_by_valid toy_codec sample_rules (codes "mail.example:25") rules-valid
