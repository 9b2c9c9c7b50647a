-- ===== src/Tests/Samples.antt =====
-- Sample data, and stand-ins for the packages that the code calls: signing is the identity, every
-- hash is the same text, and Xray's users are an association list.
use rmvpn.Base.{
  String, true, false, none, some, [], ◌∷◌, ◌==◌, eq_iff, refl, arith, if◌then◌else◌, ◌≡◌, ◌≢◌,
}
use rmvpn.Base.Int.{ℤ, pos}
use rmvpn.Base.Text.{codes, same_runes}
use rmvpn.Base.Time.{Time}
use rmvpn.Crypto.{Crypto}
use rmvpn.Model.{lite}
use rmvpn.Node.{Node}
use rmvpn.Node.Tables.{Store, DeviceRow, migrated}
use rmvpn.Exec.{World}
use rmvpn.Compliance.Rules.{Rules, Codec}

pub apart : (s t : String) → (s == t) ≡ false → s ≢ t
apart s t h e = ground (arith, h, (eq_iff s t).1 e)

pub named : (s : String) → (s == "") ≡ false → s ≢ ""
named s h e = ground (arith, h, (eq_iff s "").1 e)

abbrev pub digest : String
digest = "0123456789abcdef0123456789abcdef"

abbrev pub toy_crypto : Crypto
toy_crypto = record {
  sha256 = λ s. digest;
  sha256_size = λ s. refl;
  encode = λ s. s;
  decode = λ s. some s;
  decode-encode = λ s. refl;
  public_key = λ k. digest;
  sign = λ k p. p;
  verify = λ k p s. p == s;
  verify-sign = λ k p. (eq_iff p p).1 refl;
}

-- A network of the toy codec is the one address 7, and its rules block that network and port 25.
abbrev pub sample_rules : Rules
sample_rules = record {
  blocked_domains = codes "bad.example" ∷ [];
  blocked_cidrs = codes "seven" ∷ [];
  blocked_ports = pos 25 ∷ [];
}

abbrev pub toy_codec : Codec
toy_codec = record {
  rules = λ raw. if raw == "rules" then some sample_rules else none;
  canonical = λ raw. some raw;
  feed_bytes = λ version updated expires canonical. canonical;
  rfc3339 = λ t. "then";
  parse_ip = λ host. if same_runes host (codes "7.0.0.7") then some 7 else none;
  parse_cidr = λ entry. some (λ ip. true);
}

abbrev pub toy_lease_bytes : String → String → String → ℤ → Time → Time → String → String
toy_lease_bytes id device node bytes issued expires key_id = id

abbrev pub phone_row : DeviceRow
phone_row = record {
  device_id = "phone";
  credential_hash = digest;
  plan = lite;
  active = true;
  subscription_ends = 1_000_000;
  period_ends = 1_000_000;
  quota_bytes = pos 1000;
  used_bytes = pos 10;
  lease_bytes = pos 0;
  lease_expires = 0;
  override_up_bps = pos 0;
  override_down_bps = pos 0;
  override_p2p = false;
  override_expires = 0;
}

abbrev pub sample_store : Store
sample_store = record migrated {
  devices = phone_row ∷ [];
  state = ("node_id", "node-1") ∷ ("controller_public_key", digest) ∷ [];
  enrollment =
      some (record { token = "t"; token_hash = digest; expires_at = 1_000; claimed_at = none });
}

abbrev pub sample_node : Node
sample_node = record {
  store = sample_store;
  users = [];
  blocked = [];
  kicked = [];
  seen = [];
  sent = [];
}

abbrev pub sample : World
sample = record { held = sample_node; faults = [] }
