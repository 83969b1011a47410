-- ===== src/Vault/Rows.antt =====
-- The tables `token_vault` and `token_vault_access_log` of vault.py as lists of rows, the newest
-- first, and the conditions of its queries.
use dlp_server.Base.{ℕ, Bool, true, false, ◌&&◌, Option, none, some, List, find, filter, length}
use dlp_server.Base.Str.{Str, eq}

-- access_scope: a JSON object whose values are lists
abbrev pub Scope : Type 0
Scope = List (Str × List Str)

-- a row of token_vault; times are microseconds
pub record Row : Type 0 where
  pub token_id : ℕ
  pub session_id : Str
  pub entity_type : Str
  pub token_label : Str
  pub cipher_value : List ℕ
  pub value_hash : Str
  pub access_scope : Scope
  pub expires_at : ℕ
  pub revoked_at : Option ℕ

-- a row of token_vault_access_log; the nil UUID is `none`
pub record Access : Type 0 where
  pub token_id : Option ℕ
  pub session_id : Str
  pub token_label : Str
  pub requested_role : Str
  pub requested_purpose : Option Str
  pub granted : Bool
  pub denied_reason : Option Str

pub record Db : Type 0 where
  pub rows : List Row
  pub log : List Access
  pub next_id : ℕ

-- revoked_at IS NULL
abbrev pub is_active : Row → Bool
is_active r = elim r.revoked_at [ none ↦ true | some t ↦ false ]

abbrev pub same_value : Str → Str → Row → Bool
same_value session vhash r = eq r.session_id session && (eq r.value_hash vhash && is_active r)

abbrev pub same_kind : Str → Str → Row → Bool
same_kind session etype r = eq r.session_id session && eq r.entity_type etype

abbrev pub same_label : Str → Str → Row → Bool
same_label session label r = eq r.session_id session && (eq r.token_label label && is_active r)

-- SELECT token_label … WHERE session_id = %s AND value_hash = %s AND revoked_at IS NULL
unfoldable pub select_label : Str → Str → List Row → Option Str
select_label session vhash rows = elim (find (same_value session vhash) rows) [
  | none ↦ none
  | some r ↦ some r.token_label
]

-- SELECT count(*) … WHERE session_id = %s AND entity_type = %s
unfoldable pub count : Str → Str → List Row → ℕ
count session etype rows = length (filter (same_kind session etype) rows)
