-- ===== src/Enrollment.antt =====
-- internal/enrollment/service.go: the identity of the node, its one-time token, and its claim. The
-- clock and the random bytes are arguments.
pub mod Binding
use rmvpn.Base.{
  ◌&&◌, ◌||◌, ◌+◌, ◌*◌, String, Bool, false, not, ◌&&◌, ◌||◌, Option, none, some, List, [], ◌∷◌,
  ◌==◌, is_empty, if◌then◌else◌,
}
use rmvpn.Base.Text.{codes, trim_space}
use rmvpn.Base.Time.{Time, after, hour}
use rmvpn.Base.Outcome.{
  not_initialized, already_claimed, token_expired, identity_incomplete, node_id_missing,
  claim_token_missing, controller_url_invalid, controller_key_invalid, certificate_invalid,
  quota_public_key_invalid, compliance_public_key_invalid, node_key_missing, invalid_encoding,
  certificate_mismatch,
}
use rmvpn.Crypto.{Crypto, hash, is_public_key}
use rmvpn.Exec.{M, pure, raise, guard, or_raise, attempt, ◌>>=◌, ◌>>◌}
use rmvpn.Store.State.{Enrollment, enrollment, replace_enrollment, state_value, set_states, claim}
use rmvpn.Control.Handlers.{Certificate, flat, same_key}
use rmvpn.Compliance.Rules.{is_some}

pub record Bundle : Type 0 where
  pub node_id : String
  pub node_public_key : String
  pub claim_token : String
  pub expires_at : Time

pub record ClaimRequest : Type 0 where
  pub claim_token : String
  pub controller_url : String
  pub controller_public_key : String
  pub quota_public_key : String
  pub compliance_public_key : String
  pub node_certificate_pem : String
  pub controller_ca_pem : String

-- A new Ed25519 pair and a new UUID.
pub record Identity : Type 0 where
  pub public : String
  pub private : String
  pub id : String

-- What url.Parse gives, as far as Claim reads it.
pub record Url : Type 0 where
  pub scheme : String
  pub host : String

-- What the service calls: url.Parse, pem.Decode with x509.ParseCertificate (of a CERTIFICATE block),
-- and Verify of a certificate against a CA.
pub record Authority : Type 0 where
  pub crypto : Crypto
  pub parse_url : String → Option Url
  pub parse_certificate : String → Option Certificate
  pub chains_to : Certificate → Certificate → Time → Bool

abbrev pub identity_states : Crypto → Identity → List (String × String)
identity_states c new =
    ("node_id", new.id)
    ∷ ("node_public_key", c.encode new.public)
    ∷ ("node_private_key", c.encode new.private)
    ∷ []

abbrev pub is_set : Option String → Bool
is_set none = false
is_set (some value) = not (value == "")

unfoldable pub complete_identity : Crypto → Identity → Option String → Bool → Bool → M (Unit {0})
unfolding set_states
complete_identity c new private has_public has_id =
    if is_some private || has_public || has_id
    then guard (is_set private && has_public && has_id) identity_incomplete
    else set_states (identity_states c new)

unfoldable pub ensure_identity : Crypto → Identity → M (Unit {0})
unfolding state_value complete_identity
ensure_identity c new = do
  private ← state_value "node_private_key"
  public ← state_value "node_public_key"
  id ← state_value "node_id"
  complete_identity c new private (is_some public) (is_some id)

-- The bundle before it is encoded; domain, endpoint and version are the service's constants.
unfoldable pub bundle : String → Time → M Bundle
unfolding state_value
bundle token expires = do
  id ← attempt (state_value "node_id")
  node_id ← or_raise node_id_missing (flat id)
  key ← attempt (state_value "node_public_key")
  public_key ← or_raise node_key_missing (flat key)
  pure (record {
    node_id = node_id;
    node_public_key = public_key;
    claim_token = token;
    expires_at = expires;
  })

unfoldable pub reenroll : Crypto → Identity → String → Time → M Bundle
unfolding ensure_identity replace_enrollment bundle hash
reenroll c new token now = do
  ensure_identity c new
  replace_enrollment token (hash c token) (now + 24 * hour)
  bundle token (now + 24 * hour)

unfoldable pub current_bundle : Time → Option Enrollment → M Bundle
unfolding bundle
current_bundle now none = raise not_initialized
current_bundle now (some e) =
    if is_some e.claimed_at
    then raise already_claimed
    else if not (after e.expires_at now)
    then raise token_expired
    else bundle e.token e.expires_at

unfoldable pub current : Time → M Bundle
unfolding enrollment current_bundle
current now = do found ← enrollment; current_bundle now found

-- `none` is the empty text that Ensure returns once the node is claimed.
abbrev pub wrapped : M Bundle → M (Option Bundle)
wrapped m = do b ← m; pure (some b)

unfoldable pub ensured : Crypto → Identity → String → Time → Option Enrollment → M (Option Bundle)
unfolding reenroll bundle
ensured c new token now none = wrapped (reenroll c new token now)
ensured c new token now (some e) =
    if is_some e.claimed_at
    then pure none
    else if not (after e.expires_at now)
    then wrapped (reenroll c new token now)
    else wrapped (bundle e.token e.expires_at)

unfoldable pub ensure : Crypto → Identity → String → Time → M (Option Bundle)
unfolding ensure_identity enrollment ensured
ensure c new token now = do ensure_identity c new; found ← enrollment; ensured c new token now found

-- An optional key is absent or the base64url of 32 bytes.
abbrev pub decoded_key : Option String → Bool
decoded_key none = false
decoded_key (some raw) = is_public_key raw

abbrev pub optional_key : Crypto → String → Bool
optional_key c encoded = encoded == "" || decoded_key (c.decode encoded)

abbrev pub optional_states : ClaimRequest → List (String × String)
optional_states r =
    let compliance =
      if r.compliance_public_key == ""
      then []
      else ("compliance_public_key", r.compliance_public_key) ∷ [] in
    if r.quota_public_key == ""
    then compliance
    else ("quota_public_key", r.quota_public_key) ∷ compliance

abbrev pub is_controller_url : Option Url → Bool
is_controller_url none = false
is_controller_url (some url) =
    (url.scheme == "wss" || url.scheme == "https") && not (url.host == "")

-- The checks of Claim before the database is written, in their order.
unfoldable pub check_claim : Authority → Time → ClaimRequest → M (Unit {0})
unfolding trim_space state_value
check_claim a now r = do
  guard (not (is_empty (trim_space (codes r.claim_token)))) claim_token_missing
  guard (is_controller_url (a.parse_url r.controller_url)) controller_url_invalid
  guard (decoded_key (a.crypto.decode r.controller_public_key)) controller_key_invalid
  certificate ← or_raise certificate_invalid (a.parse_certificate r.node_certificate_pem)
  ca ← or_raise certificate_invalid (a.parse_certificate r.controller_ca_pem)
  guard (a.chains_to certificate ca now) certificate_invalid
  setting ← attempt (state_value "node_public_key")
  encoded ← or_raise node_key_missing (flat setting)
  key ← or_raise invalid_encoding (a.crypto.decode encoded)
  guard (same_key certificate.ed25519_key key) certificate_mismatch
  guard (optional_key a.crypto r.quota_public_key) quota_public_key_invalid
  guard (optional_key a.crypto r.compliance_public_key) compliance_public_key_invalid

unfoldable pub claim_node : Authority → Time → ClaimRequest → M (Unit {0})
unfolding check_claim claim set_states hash
claim_node a now r = do
  check_claim a now r
  claim (hash a.crypto r.claim_token) r.controller_url r.controller_public_key
      r.node_certificate_pem r.controller_ca_pem now
  if is_empty (optional_states r) then pure tt else set_states (optional_states r)
