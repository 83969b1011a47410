-- ===== src/Vault/Crypto.antt =====
-- What vault.py and ids.py take from libraries, and the helpers around it.
use dlp_server.Base.{
  ℕ, Bool, Option, none, some, List, ◌∷◌, ◌++◌, Result, ok, raised, ◌>>=◌, if◌then◌else◌, take,
  drop,
}
use dlp_server.Base.Str.{Str}

-- What the code calls and does not define: the parser and the hash of `uuid`, SHA-256 over the
-- UTF-8 bytes in hex, UTF-8, and AES-GCM under the configured key. `cipher_ready` says whether the
-- key is configured with 32 bytes; `_cipher` raises otherwise.
pub record External : Type 0 where
  pub parse_uuid : Str → Option Str
  pub uuid5 : Str → Str
  pub sha256_hex : Str → Str
  pub utf8_encode : Str → List ℕ
  pub utf8_decode : List ℕ → Result Str
  pub cipher_ready : Bool
  pub seal : List ℕ → List ℕ → List ℕ
  pub unseal : List ℕ → List ℕ → Result (List ℕ)

module _ (ext : External) where
  -- ids.py: `coerce_session_uuid`
  unfoldable pub coerce_session_uuid : Str → Str
  coerce_session_uuid session_id = elim (ext.parse_uuid session_id) [
    | some id ↦ id
    | none ↦ ext.uuid5 session_id
  ]

  -- `_hash`
  unfoldable pub hash : Str → Str → Str → Str
  hash session_id entity_type value =
      take 32 (ext.sha256_hex (session_id ++ (0x1f ∷ (entity_type ++ (0x1f ∷ value)))))

  -- `_encrypt` with the nonce that os.urandom gave
  unfoldable pub encrypt : List ℕ → Str → Result (List ℕ)
  encrypt nonce value =
      if ext.cipher_ready then ok (nonce ++ ext.seal nonce (ext.utf8_encode value)) else raised

  -- `_decrypt`: the nonce is the first 12 bytes
  unfoldable pub decrypt : List ℕ → Result Str
  decrypt blob =
      if ext.cipher_ready
      then (do bytes ← ext.unseal (take 12 blob) (drop 12 blob); ext.utf8_decode bytes)
      else raised
