-- ===== src/Vless.antt =====
-- internal/vless/identity.go: the VLESS user ID of a device. `uuid` is uuid.NewSHA1 over the
-- source's namespace, written as text.
use Prim.Native.String.{len}
use rmvpn.Base.{String, ◌≡◌, Option, none, some, eqb, if◌then◌else◌}
use rmvpn.Base.Outcome.{Result, ok, err, credential_hash_invalid}
use rmvpn.Crypto.{Crypto, hash}

module _ (c : Crypto) (uuid : String → String) where
  unfoldable pub id_from_credential : String → String
  id_from_credential credential = uuid (c.sha256 credential)

  unfoldable pub id_from_digest : Option String → Result String
  id_from_digest none = err credential_hash_invalid
  id_from_digest (some digest) =
      if eqb (len digest) 32 then ok (uuid digest) else err credential_hash_invalid

  unfoldable pub id_from_credential_hash : String → Result String
  unfolding id_from_digest
  id_from_credential_hash encoded = id_from_digest (c.decode encoded)

  -- The node derives from the hash of a credential, for every credential, the ID that the control
  -- plane derives from the credential itself.
  pub id_from_credential_hash-hash :
      (credential : String)
      → id_from_credential_hash (hash c credential) ≡ ok (id_from_credential credential)
  unfolding id_from_credential_hash id_from_credential hash
  id_from_credential_hash-hash credential =
      rw (c.decode-encode (c.sha256 credential), c.sha256_size credential)
