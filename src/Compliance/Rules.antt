-- ===== src/Compliance/Rules.antt =====
-- internal/compliance/service.go: `validateRules`, and the loops of `Blocked` over the rules.
use rmvpn.Base.{
  ℕ, String, Bool, true, false, not, ◌&&◌, ◌||◌, Option, none, some, List, [], ◌∷◌, ◌++◌, any,
  is_empty, if◌then◌else◌,
}
use rmvpn.Base.Int.{ℤ, pos, leb_ℤ}
use rmvpn.Base.Text.{
  Runes, codes, same_runes, has_any, has_suffix, to_lower, trim_prefix, trim_space,
}
use rmvpn.Base.Time.{Time}
use rmvpn.Base.Outcome.{Result, ok, err, rule_domain, rule_cidr, rule_port, invalid_encoding}
use rmvpn.Address.{host_of, port_of}

pub record Rules : Type 0 where
  pub blocked_domains : List Runes
  pub blocked_cidrs : List Runes
  pub blocked_ports : List ℤ

-- What the service uses of encoding/json, net and time. An IP address is the number of its 16
-- bytes, and a network is the test that net.IPNet.Contains makes.
pub record Codec : Type 0 where
  -- json.Unmarshal of the rules
  pub rules : String → Option Rules
  -- json.Unmarshal into `any` and json.Marshal back
  pub canonical : String → Option String
  -- json.Marshal of the version, the two times and the canonical rules
  pub feed_bytes : String → Time → Time → String → String
  pub rfc3339 : Time → String
  pub parse_ip : Runes → Option ℕ
  pub parse_cidr : Runes → Option (ℕ → Bool)

unfoldable pub valid_domain : Runes → Bool
unfolding trim_space has_any
valid_domain domain =
    not (is_empty (trim_space domain)) && not (has_any (trim_space domain) (codes " /:@"))

abbrev pub is_some {ℓ} : {A : Type ℓ} → Option A → Bool
is_some none = false
is_some (some a) = true

abbrev pub valid_port : ℤ → Bool
valid_port port = leb_ℤ (pos 1) port && leb_ℤ port (pos 65535)

unfoldable pub check_each {ℓ} :
    {A : Type ℓ} → (A → Bool) → Result (Unit {0}) → List A → Result (Unit {0})
check_each valid failure [] = ok tt
check_each valid failure (x ∷ xs) =
    let rest = check_each valid failure xs in if valid x then rest else failure

abbrev pub and_then : Result (Unit {0}) → Result (Unit {0}) → Result (Unit {0})
and_then (ok _) r = r
and_then (err e) r = err e

abbrev pub dotted : Runes → Runes
dotted domain = codes "." ++ domain

unfoldable pub domain_matches : Runes → Runes → Bool
unfolding to_lower trim_prefix trim_space
domain_matches host entry =
    let domain = to_lower (trim_prefix (trim_space entry) (codes ".")) in
    not (is_empty domain) && (same_runes host domain || has_suffix host (dotted domain))

abbrev pub eq_ℤ : ℤ → ℤ → Bool
eq_ℤ a b = leb_ℤ a b && leb_ℤ b a

module _ (k : Codec) where
  unfoldable pub validate_rules : Option Rules → Result (Unit {0})
  unfolding check_each valid_domain
  validate_rules none = err invalid_encoding
  validate_rules (some rules) =
      and_then (check_each valid_domain (err rule_domain) rules.blocked_domains) (
        and_then (check_each (λ e. is_some (k.parse_cidr e)) (err rule_cidr) rules.blocked_cidrs)
          (check_each valid_port (err rule_port) rules.blocked_ports))

  unfoldable pub cidr_hit : ℕ → List Runes → Result Bool
  cidr_hit ip [] = ok false
  cidr_hit ip (entry ∷ entries) = elim (k.parse_cidr entry) [
    | none ↦ err rule_cidr
    | some network ↦ (let more = cidr_hit ip entries in if network ip then ok true else more)
  ]

  unfoldable pub network_hit : Option ℕ → List Runes → Result Bool
  unfolding cidr_hit
  network_hit none entries = ok false
  network_hit (some ip) entries = cidr_hit ip entries

  abbrev pub or_port : Result Bool → Bool → Result Bool
  or_port (err e) hit = err e
  or_port (ok true) hit = ok true
  or_port (ok false) hit = ok hit

  unfoldable pub blocked_by : Rules → Runes → Result Bool
  unfolding domain_matches network_hit host_of port_of
  blocked_by rules address =
      if any (domain_matches (host_of address)) rules.blocked_domains
      then ok true
      else or_port (network_hit (k.parse_ip (host_of address)) rules.blocked_cidrs)
          (any (eq_ℤ (port_of address)) rules.blocked_ports)
