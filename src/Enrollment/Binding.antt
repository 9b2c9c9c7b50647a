-- ===== src/Enrollment/Binding.antt =====
-- What binds a node to its controller.
use rmvpn.Base.{
  ◌≡◌, ◌≢◌, ◌⊎◌, inl, inr, ◌==◌, eq_iff, refl, Bool-cases, String, Option, none, true, some, arith,
}
use rmvpn.Base.Time.{Time}
use rmvpn.Exec.{World}
use rmvpn.Store.State.{lookup}
use rmvpn.Control.Handlers.{Certificate, same_key}
use rmvpn.Enrollment.{Url, is_controller_url, Authority, ClaimRequest, decoded_key, optional_key}

-- A request that names a controller and carries a certificate of this node's key from its CA.
pub record IsBinding (a : Authority) (now : Time) (r : ClaimRequest) (w : World) : Type 0 where
  pub url : Url
  pub url_parsed : a.parse_url r.controller_url ≡ some url
  pub scheme : (url.scheme ≡ "wss") ⊎ (url.scheme ≡ "https")
  pub host : url.host ≢ ""
  pub controller_key : decoded_key (a.crypto.decode r.controller_public_key) ≡ true
  pub certificate : Certificate
  pub parsed : a.parse_certificate r.node_certificate_pem ≡ some certificate
  pub ca : Certificate
  pub ca_parsed : a.parse_certificate r.controller_ca_pem ≡ some ca
  pub chain : a.chains_to certificate ca now ≡ true
  pub encoded : String
  pub stored : lookup "node_public_key" w.held.store.state ≡ some encoded
  pub key : String
  pub decoded : a.crypto.decode encoded ≡ some key
  pub own : same_key certificate.ed25519_key key ≡ true
  pub quota_key : optional_key a.crypto r.quota_public_key ≡ true
  pub compliance_key : optional_key a.crypto r.compliance_public_key ≡ true

controller_url :
    (o : Option Url)
    → is_controller_url o ≡ true
    → (url : Url) × (o ≡ some url)
      × ((url.scheme ≡ "wss") ⊎ (url.scheme ≡ "https"))
      × (url.host ≢ "")
controller_url none h = cc
controller_url (some url) h = (
  url,
  refl,
  elim (Bool-cases (url.scheme == "wss")) [
    | inl t ↦ inl ((eq_iff url.scheme "wss").0 t)
    | inr f ↦ inr ((eq_iff url.scheme "https").0 (ground (arith, h, f)))
  ],
  λ e. ground (arith, h, (eq_iff url.host "").1 e),
)
