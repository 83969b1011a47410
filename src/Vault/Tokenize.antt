-- ===== src/Vault/Tokenize.antt =====
-- `tokenize` of vault.py.
use dlp_server.Base.{
  ℕ, suc, ◌+◌, ◌*◌, Bool, not, Option, none, some, List, [], ◌∷◌, Result, ok, raised, if◌then◌else◌,
}
use dlp_server.Base.Str.{Str, str, contains}
use dlp_server.Base.Unicode.{Unicode, strip, upper}
use dlp_server.Vault.Rows.{Scope, Db, select_label, count}
use dlp_server.Vault.Crypto.{External, coerce_session_uuid, hash, encrypt}
use dlp_server.Vault.Label.{token_label}

-- ENTITY_TYPES
unfoldable pub entity_types : List Str
entity_types =
    str "RRN"
    ∷ str "FOREIGN_RRN"
    ∷ str "CARD"
    ∷ str "ACCOUNT"
    ∷ str "PASSPORT"
    ∷ str "DRIVER"
    ∷ str "CREDIT_INFO"
    ∷ str "PHONE"
    ∷ str "EMAIL"
    ∷ str "BIZNO"
    ∷ str "AMOUNT"
    ∷ str "NAME"
    ∷ str "ADDRESS"
    ∷ str "ORG"
    ∷ str "PROJECT"
    ∷ []

unfoldable pub unknown_type : Str
unknown_type = str "UNKNOWN"

module _ ⦃u : Unicode⦄ where
  -- `_normalize_entity_type`
  unfoldable pub normalize_entity_type : Str → Str
  normalize_entity_type entity_type =
      let etype = upper (strip entity_type) in
      if contains entity_types etype then etype else unknown_type

-- a missing scope restores for nobody
abbrev pub scope_or_default : Option Scope → Scope
scope_or_default none = (str "roles", []) ∷ (str "purposes", []) ∷ []
scope_or_default (some scope) = scope

module _ (ext : External) where
  -- The part of `tokenize` under the advisory lock, at the state that the lock finds: the number
  -- is one more than the rows of the session and type, revoked ones included, and INSERT … ON
  -- CONFLICT DO NOTHING falls back to the label of an active row with the same hash.
  unfoldable pub tokenize_locked : ℕ → ℕ → List ℕ → Str → Str → Str → Scope → Db → Result Str × Db
  tokenize_locked now ttl nonce session_id etype value scope db =
      let session = coerce_session_uuid ext session_id in
      let vhash = hash ext session_id etype value in
      let label = token_label etype (count session etype db.rows + 1) in
      elim (encrypt ext nonce value) [
        | raised ↦ (raised, db)
        | ok blob ↦ elim (select_label session vhash db.rows) [
          | some old ↦ (ok old, db)
          | none ↦ (
            ok label,
            record db {
              rows =
                  record {
                    token_id = db.next_id;
                    session_id = session;
                    entity_type = etype;
                    token_label = label;
                    cipher_value = blob;
                    value_hash = vhash;
                    access_scope = scope;
                    expires_at = now + ttl * 1000000;
                    revoked_at = none;
                  }
                  ∷ db.rows;
              next_id = suc db.next_id;
            },
          )
        ]
      ]

  module _ ⦃u : Unicode⦄ where
    -- `tokenize`: the first SELECT sees `db`, and the locked part the state `db'` that the other
    -- transactions have committed by then. Without the database the call raises, and a call that
    -- raises is rolled back. The scope defaults to empty lists.
    unfoldable pub tokenize_between :
        Bool → ℕ → ℕ → List ℕ → Str → Str → Str → Option Scope → Db → Db → Result Str × Db
    tokenize_between up now ttl nonce session_id entity_type value access_scope db db' =
        let etype = normalize_entity_type entity_type in
        let locked =
          tokenize_locked now ttl nonce session_id etype value (scope_or_default access_scope)
            db' in
        if not up
        then (raised, db)
        else elim (select_label (coerce_session_uuid ext session_id)
            (hash ext session_id etype value) db.rows) [
              | some label ↦ (ok label, db)
              | none ↦ locked
            ]

    -- `tokenize` with no other transaction in between
    unfoldable pub tokenize :
        Bool → ℕ → ℕ → List ℕ → Str → Str → Str → Option Scope → Db → Result Str × Db
    tokenize up now ttl nonce session_id entity_type value access_scope db =
        tokenize_between up now ttl nonce session_id entity_type value access_scope db db
