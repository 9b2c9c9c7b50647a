-- ===== src/Compliance/Filter.antt =====
-- What the filter blocks under rules that were validated.
use rmvpn.Base.{
  ◌≢◌, ◌++◌, ◌↔◌, ◌⊎◌, inl, inr, true, not, ◌&&◌, is_empty, Bool-cases, subst, ℕ, ◌≡◌, refl, ap,
  sym, Bool, false, ◌||◌, Option, none, some, List, [], ◌∷◌, any, arith,
}
use rmvpn.Base.Rows.{Memᴰ, any_iff}
use rmvpn.Base.Int.{ℤ, pos, negsuc}
use rmvpn.Base.Text.{
  Runes, codes, to_lower, trim_prefix, trim_space, same_runes, same_runes_iff, has_suffix,
  has_suffix_iff,
}
use rmvpn.Base.Outcome.{ok, err, rule_cidr}
use rmvpn.Address.{host_of, port_of}
use rmvpn.Compliance.Rules.{
  Rules, Codec, is_some, check_each, domain_matches, dotted, eq_ℤ, validate_rules, cidr_hit,
  network_hit, blocked_by,
}

module _ (k : Codec) where
  -- A network that covers the address.
  abbrev pub in_network : Option (ℕ → Bool) → ℕ → Bool
  in_network none ip = false
  in_network (some network) ip = network ip

  abbrev pub covers : Option ℕ → Runes → Bool
  covers none entry = false
  covers (some ip) entry = in_network (k.parse_cidr entry) ip

  cidrs_valid :
      (rules : Rules)
      → validate_rules k (some rules) ≡ ok tt
      → check_each (λ e. is_some (k.parse_cidr e)) (err rule_cidr) rules.blocked_cidrs ≡ ok tt
  unfolding validate_rules
  cidrs_valid rules e = ground arith

  tail_valid :
      (entry : Runes) (entries : List Runes)
      → check_each (λ e. is_some (k.parse_cidr e)) (err rule_cidr) (entry ∷ entries) ≡ ok tt
      → check_each (λ e. is_some (k.parse_cidr e)) (err rule_cidr) entries ≡ ok tt
  unfolding check_each
  tail_valid entry entries e = ground arith

  cidr_step :
      (ip : ℕ) (entry : Runes) (entries : List Runes) (o : Option (ℕ → Bool))
      → k.parse_cidr entry ≡ o
      → check_each (λ e. is_some (k.parse_cidr e)) (err rule_cidr) (entry ∷ entries) ≡ ok tt
      → cidr_hit k ip entries ≡ ok (any (covers (some ip)) entries)
      → cidr_hit k ip (entry ∷ entries) ≡ ok (any (covers (some ip)) (entry ∷ entries))
  unfolding cidr_hit check_each
  cidr_step ip entry entries none p e q = ground arith
  cidr_step ip entry entries (some n) p e q = ground arith

  cidr_hit_valid :
      (ip : ℕ) (entries : List Runes)
      → check_each (λ e. is_some (k.parse_cidr e)) (err rule_cidr) entries ≡ ok tt
      → cidr_hit k ip entries ≡ ok (any (covers (some ip)) entries)
  unfolding cidr_hit
  cidr_hit_valid ip [] e = refl
  cidr_hit_valid ip (entry ∷ entries) e =
      cidr_step ip entry entries _ refl e (cidr_hit_valid ip entries (tail_valid entry entries e))

  none_cover : (entries : List Runes) → any (covers none) entries ≡ false
  none_cover [] = refl
  none_cover (e ∷ es) = none_cover es

  network_hit_valid :
      (o : Option ℕ) (entries : List Runes)
      → check_each (λ e. is_some (k.parse_cidr e)) (err rule_cidr) entries ≡ ok tt
      → network_hit k o entries ≡ ok (any (covers o) entries)
  unfolding network_hit
  network_hit_valid none entries e = ap ok (sym (none_cover entries))
  network_hit_valid (some ip) entries e = cidr_hit_valid ip entries e

  blocked_by-any :
      (rules : Rules) (address : Runes)
      → validate_rules k (some rules) ≡ ok tt
      → blocked_by k rules address
        ≡ ok (
            any (domain_matches (host_of address)) rules.blocked_domains
            || (any (covers (k.parse_ip (host_of address))) rules.blocked_cidrs
                || any (eq_ℤ (port_of address)) rules.blocked_ports))
  unfolding blocked_by
  blocked_by-any rules address e =
      let n =
        network_hit_valid (k.parse_ip (host_of address)) rules.blocked_cidrs
          (cidrs_valid rules e) in
      ground (arith, n)

-- The domain that an entry of the rules names: in lower case, without a dot in front of it.
abbrev pub named_domain : Runes → Runes
named_domain entry = to_lower (trim_prefix (trim_space entry) (codes "."))

-- A host is the named domain, or a name, a dot and the named domain.
abbrev pub IsBelow : Runes → Runes → Type 0
IsBelow host entry =
    (named_domain entry ≢ [])
    × ((host ≡ named_domain entry) ⊎ ((name : Runes) × (host ≡ name ++ b'.' ∷ named_domain entry)))

domain_matches_iff : (host entry : Runes) → (domain_matches host entry ≡ true) ↔ IsBelow host entry
unfolding domain_matches
domain_matches_iff host entry = parts (named_domain entry)
  where
    parts :
        (domain : Runes)
        → (not (is_empty domain) && (same_runes host domain || has_suffix host (dotted domain))
            ≡ true)
          ↔ ((domain ≢ []) × ((host ≡ domain) ⊎ ((name : Runes) × (host ≡ name ++ b'.' ∷ domain))))
    parts [] = (λ h. cc, λ (n, o). absurd (n refl))
    parts (x ∷ domain) = (
      λ h. (
        λ e. cc,
        elim (Bool-cases (same_runes host (x ∷ domain))) [
          | inl t ↦ inl ((same_runes_iff host (x ∷ domain)).0 t)
          | inr f ↦ inr ((has_suffix_iff host (dotted (x ∷ domain))).0 (ground (arith, h, f)))
        ],
      ),
      λ (n, o). elim o [
        | inl e ↦ ground (arith, (same_runes_iff host (x ∷ domain)).1 e)
        | inr e ↦ (elim (Bool-cases (same_runes host (x ∷ domain))) [
          | inl t ↦ ground (arith, t)
          | inr f ↦ ground (arith, f, (has_suffix_iff host (dotted (x ∷ domain))).1 e)
        ])
      ],
    )

port_iff : (a b : ℤ) → (eq_ℤ a b ≡ true) ↔ (b ≡ a)
port_iff (pos a) (pos b) = (λ h. ap pos (ground arith), λ h. ground (arith, h))
port_iff (pos a) (negsuc b) = (λ h. absurd (ground (arith, h)), λ h. cc)
port_iff (negsuc a) (pos b) = (λ h. absurd (ground (arith, h)), λ h. cc)
port_iff (negsuc a) (negsuc b) = (λ h. ap negsuc (ground arith), λ h. ground (arith, h))

module _ (k : Codec) where
  -- An address of a network that an entry of the rules names.
  abbrev pub IsInside : Runes → Runes → Type 0
  IsInside host entry =
      (ip : ℕ) × (network : ℕ → Bool) × (k.parse_ip host ≡ some ip)
      × (k.parse_cidr entry ≡ some network)
      × (network ip ≡ true)

  abbrev pub IsBlocked : Rules → Runes → ℤ → Type 0
  IsBlocked rules host port =
      ((entry : Runes) × Memᴰ entry rules.blocked_domains × IsBelow host entry)
      ⊎ (((entry : Runes) × Memᴰ entry rules.blocked_cidrs × IsInside host entry)
          ⊎ Memᴰ port rules.blocked_ports)

  inside_network :
      (ip : ℕ) (n : Option (ℕ → Bool))
      → (in_network k n ip ≡ true)
        ↔ ((network : ℕ → Bool) × (n ≡ some network) × (network ip ≡ true))
  inside_network ip none = (λ h. cc, λ (network, e, t). cc)
  inside_network ip (some n) = (λ h. (n, refl, h), λ (network, e, t). ground (arith, e, t))

  covers_iff :
      (host entry : Runes) (o : Option ℕ)
      → k.parse_ip host ≡ o
      → (covers k o entry ≡ true) ↔ IsInside host entry
  covers_iff host entry none e = (λ h. cc, λ (ip, network, p, c, t). absurd (ground (arith, e, p)))
  covers_iff host entry (some ip) e = (
    λ h.
        (let (network, c, t) = (inside_network ip (k.parse_cidr entry)).0 h in
          (ip, network, e, c, t)),
    λ (i, network, p, c, t).
        (inside_network ip (k.parse_cidr entry)).1
          (network, c, subst (λ z. network z ≡ true) (ground (arith, e, p)) t),
  )

  ports_iff : (port : ℤ) (ports : List ℤ) → (any (eq_ℤ port) ports ≡ true) ↔ Memᴰ port ports
  ports_iff port ports =
      let i = any_iff (eq_ℤ port) (λ z. z ≡ port) (port_iff port) ports in
      (λ h. (let (z, m, e) = i.0 h in subst (λ y. Memᴰ y ports) e m), λ m. i.1 (port, m, refl))

  any-IsBlocked :
      (rules : Rules) (host : Runes) (port : ℤ)
      → (any (domain_matches host) rules.blocked_domains
            || (any (covers k (k.parse_ip host)) rules.blocked_cidrs
                || any (eq_ℤ port) rules.blocked_ports)
          ≡ true)
        ↔ IsBlocked rules host port
  any-IsBlocked rules host port =
      let d =
        any_iff (domain_matches host) (IsBelow host) (domain_matches_iff host)
          rules.blocked_domains in
      let n =
        any_iff (covers k (k.parse_ip host)) (IsInside host) (λ entry. covers_iff host entry _ refl)
          rules.blocked_cidrs in
      let p = ports_iff port rules.blocked_ports in
      (
        λ h. elim (Bool-cases (any (domain_matches host) rules.blocked_domains)) [
          | inl t ↦ inl (d.0 t)
          | inr f ↦ elim (Bool-cases (any (covers k (k.parse_ip host)) rules.blocked_cidrs)) [
            | inl t ↦ inr (inl (n.0 t))
            | inr g ↦ inr (inr (p.0 (ground (arith, h, f, g))))
          ]
        ],
        λ o. elim o [
          | inl b ↦ ground (arith, d.1 b)
          | inr r ↦ elim r [ inl b ↦ ground (arith, n.1 b) | inr b ↦ ground (arith, p.1 b) ]
        ],
      )

  -- Under rules that were validated the filter always answers, and it blocks an address exactly if
  -- its host is the domain of an entry, which is not empty, or ends in a dot and that domain, or is
  -- an IP address in a network of the rules, or its port is one of the rules' ports.
  pub blocked_by_valid :
      (rules : Rules) (address : Runes)
      → validate_rules k (some rules) ≡ ok tt
      → (hit : Bool) × (blocked_by k rules address ≡ ok hit)
        × ((hit ≡ true) ↔ IsBlocked rules (host_of address) (port_of address))
  blocked_by_valid rules address e =
      (_, blocked_by-any k rules address e, any-IsBlocked rules (host_of address) (port_of address))
