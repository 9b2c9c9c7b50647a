-- ===== src/Crypto.antt =====
-- What the code uses of Go's crypto and encoding packages, and internal/security/security.go.
-- Raw bytes are texts, of which only the length and equality are read.
use Prim.Native.String.{len}
use rmvpn.Base.{String, ◌≡◌, Bool, true, false, Option, some, ◌==◌, eqb, if◌then◌else◌}

pub record Crypto : Type 0 where
  pub sha256 : String → String
  pub sha256_size : (s : String) → len (sha256 s) ≡ 32
  -- security.Encode and security.Decode: unpadded base64url
  pub encode : String → String
  pub decode : String → Option String
  pub decode-encode : (raw : String) → decode (encode raw) ≡ some raw
  -- ed25519: the public half of a private key, Sign, and Verify
  pub public_key : String → String
  pub sign : String → String → String
  pub verify : String → String → String → Bool
  pub verify-sign :
      (key payload : String) → verify (public_key key) payload (sign key payload) ≡ true

-- len(key) == ed25519.PublicKeySize
abbrev pub is_public_key : String → Bool
is_public_key raw = eqb (len raw) 32

-- security.Hash
unfoldable pub hash : Crypto → String → String
hash c value = c.encode (c.sha256 value)

-- security.EqualHash
unfoldable pub equal_hash : Crypto → String → String → Bool
unfolding hash
equal_hash c encoded plain =
    if eqb (len encoded) (len (hash c plain)) then encoded == hash c plain else false
