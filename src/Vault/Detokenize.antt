-- ===== src/Vault/Detokenize.antt =====
-- `detokenize` of vault.py and the check of the scope.
use dlp_server.Base.{
  ℕ, Bool, true, false, ◌||◌, not, Option, none, some, List, [], ◌∷◌, ok, raised, if◌then◌else◌,
  leb, find,
}
use dlp_server.Base.Str.{Str, str, contains, lookup}
use dlp_server.Vault.Rows.{Scope, Db, same_label}
use dlp_server.Vault.Crypto.{External, coerce_session_uuid, decrypt}

abbrev pub role_or_empty : Option Str → Str
role_or_empty none = []
role_or_empty (some role) = role

unfoldable pub unknown_or_revoked : Str
unknown_or_revoked = str "unknown_or_revoked"

unfoldable pub expired : Str
expired = str "expired"

unfoldable pub role_not_in_scope : Str
role_not_in_scope = str "role_not_in_scope"

unfoldable pub purpose_not_in_scope : Str
purpose_not_in_scope = str "purpose_not_in_scope"

-- scope.get(axis) or []
unfoldable pub axis : Str → Scope → List Str
axis key scope = elim (lookup key scope) [ none ↦ [] | some xs ↦ xs ]

-- "*" in xs or (value is not None and value in xs)
unfoldable pub axis_allows : List Str → Option Str → Bool
axis_allows xs none = contains xs (str "*")
axis_allows xs (some value) = contains xs (str "*") || contains xs value

-- `_scope_allows`: `none` if allowed, else the reason
unfoldable pub scope_allows : Scope → Option Str → Option Str → Option Str
scope_allows scope role purpose =
    if not (axis_allows (axis (str "roles") scope) role)
    then some role_not_in_scope
    else if not (axis_allows (axis (str "purposes") scope) purpose)
    then some purpose_not_in_scope
    else none

module _ (ext : External) where
  -- `_log_access`
  unfoldable pub log_access :
      Option ℕ → Str → Str → Option Str → Option Str → Bool → Option Str → Db → Db
  log_access token_id session_id token_label role purpose granted denied_reason db = record db {
    log =
        record {
          token_id = token_id;
          session_id = coerce_session_uuid ext session_id;
          token_label = token_label;
          requested_role = role_or_empty role;
          requested_purpose = purpose;
          granted = granted;
          denied_reason = denied_reason;
        }
        ∷ db.log;
  }

  -- `detokenize`: an exception rolls back and gives None
  unfoldable pub detokenize : Bool → ℕ → Str → Str → Option Str → Option Str → Db → Option Str × Db
  detokenize up now session_id label role purpose db =
      if not up
      then (none, db)
      else elim (find (same_label (coerce_session_uuid ext session_id) label) db.rows) [
        | none ↦
            (none, log_access none session_id label role purpose false (some unknown_or_revoked) db)
        | some row ↦
            if leb row.expires_at now
            then (
              none,
              log_access (some row.token_id) session_id label role purpose false (some expired) db,
            )
            else elim (scope_allows row.access_scope role purpose) [
              | some reason ↦ (
                none,
                log_access (some row.token_id) session_id label role purpose false (some reason) db,
              )
              | none ↦ elim (decrypt ext row.cipher_value) [
                | raised ↦ (none, db)
                | ok value ↦ (
                  some value,
                  log_access (some row.token_id) session_id label role purpose true none db,
                )
              ]
            ]
      ]
