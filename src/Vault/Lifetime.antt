-- ===== src/Vault/Lifetime.antt =====
-- `revoke_session` and `purge_expired` of vault.py.
use dlp_server.Base.{ℕ, ◌+◌, Bool, false, ◌&&◌, not, none, some, map, if◌then◌else◌, ltb, filter}
use dlp_server.Base.Str.{Str, eq}
use dlp_server.Vault.Rows.{Row, Db, is_active}
use dlp_server.Vault.Crypto.{External, coerce_session_uuid}

-- UPDATE token_vault SET revoked_at = now() WHERE … AND revoked_at IS NULL
abbrev pub revoke_where : ℕ → (Row → Bool) → Row → Row
revoke_where now test r = if test r && is_active r then record r { revoked_at = some now } else r

-- one day
abbrev pub day : ℕ
day = 86400000000

-- revoked_at IS NOT NULL AND revoked_at < now() - interval '1 day'
abbrev pub is_stale : ℕ → Row → Bool
is_stale now r = elim r.revoked_at [ none ↦ false | some t ↦ ltb (t + day) now ]

module _ (ext : External) where
  -- `revoke_session`
  unfoldable pub revoke_session : Bool → ℕ → Str → Db → Db
  revoke_session up now session_id db =
      if up
      then record db {
        rows =
            map (revoke_where now (λ r. eq r.session_id (coerce_session_uuid ext session_id)))
              db.rows;
      }
      else db

-- `purge_expired`: soft revoke, then delete what was revoked more than a day ago
unfoldable pub purge_expired : Bool → ℕ → Db → Db
purge_expired up now db =
    let revoked = map (revoke_where now (λ r. ltb r.expires_at now)) db.rows in
    if up then record db { rows = filter (λ r. not (is_stale now r)) revoked } else db
