-- ===== src/Vault/Tokens.antt =====
-- vault.py: labels are stable, and a token can be turned back.
use dlp_server.Base.{
  ℕ, ◌+◌, ◌*◌, ◌<◌, ◌≡◌, refl, sym, ◌∙◌, ap, subst, true, Option, none, some, List, ◌∷◌, ◌++◌, ok,
  Member, take, drop, length, take-append, drop-append, inl, inr, arith, Option-cases,
}
use dlp_server.Base.Str.{Str, eq_iff, eq_refl}
use dlp_server.Base.Unicode.{Unicode}
use dlp_server.Vault.Rows.{Row, Db, Scope, same_label, select_label, count}
use dlp_server.Vault.Label.{token_label}
use dlp_server.Vault.Crypto.{External, coerce_session_uuid, hash, encrypt, decrypt}
use dlp_server.Vault.Tokenize.{
  normalize_entity_type, scope_or_default, tokenize_locked, tokenize_between, tokenize,
}
use dlp_server.Vault.Detokenize.{scope_allows, detokenize}
use dlp_server.Vault.Numbering.{IsNumbered, HasUniqueLabels, IsNumbered-HasUniqueLabels}
use dlp_server.Vault.Reach.{tokenize_locked-IsNumbered, normalize_entity_type-Lacks}
use dlp_server.Vault.Restore.{detokenize_restores}

-- what the libraries document: opening undoes sealing, and decoding undoes encoding
pub record IsFaithful (ext : External) : Type 0 where
  pub unseal_seal : (nonce text : List ℕ) → ext.unseal nonce (ext.seal nonce text) ≡ ok text
  pub decode_encode : (s : Str) → ext.utf8_decode (ext.utf8_encode s) ≡ ok s

module _ (ext : External) where
  -- `_decrypt` undoes `_encrypt` for every nonce of 12 bytes.
  pub decrypt-encrypt :
      (nonce : List ℕ) (value : Str) (blob : List ℕ)
      → IsFaithful ext
      → length nonce ≡ 12
      → encrypt ext nonce value ≡ ok blob
      → decrypt ext blob ≡ ok value
  unfolding encrypt decrypt
  decrypt-encrypt nonce value blob laws twelve h =
      let sealed = ext.seal nonce (ext.utf8_encode value) in
      let shape : blob ≡ nonce ++ sealed = ground (arith, h) in
      let ready : ext.cipher_ready ≡ true = ground (arith, h) in
      let front : take 12 (nonce ++ sealed) ≡ nonce = rw (← twelve) (take-append nonce sealed) in
      let back : drop 12 (nonce ++ sealed) ≡ sealed = rw (← twelve) (drop-append nonce sealed) in
      rw (ready, shape, front, back, laws.unseal_seal nonce (ext.utf8_encode value))
        (laws.decode_encode value)

  module _ ⦃u : Unicode⦄ (ttl : ℕ) (session_id entity_type value : Str) where
    abbrev session : Str
    session = coerce_session_uuid ext session_id

    abbrev etype : Str
    etype = normalize_entity_type entity_type

    abbrev vhash : Str
    vhash = hash ext session_id etype value

    select_label-locked :
        (now : ℕ) (nonce : List ℕ) (scope : Scope) (db : Db) (label : Str)
        → (tokenize_locked ext now ttl nonce session_id etype value scope db).0 ≡ ok label
        → select_label session vhash
            (tokenize_locked ext now ttl nonce session_id etype value scope db).1.rows
          ≡ some label
    unfolding tokenize_locked select_label
    select_label-locked now nonce scope db label h = ground (arith, eq_refl session, eq_refl vhash)

    tokenize_known :
        (now : ℕ) (nonce : List ℕ) (scope : Option Scope) (db : Db) (label : Str)
        → select_label session vhash db.rows ≡ some label
        → tokenize ext true now ttl nonce session_id entity_type value scope db ≡ (ok label, db)
    unfolding tokenize tokenize_between
    tokenize_known now nonce scope db label e = rw e

    tokenize_fresh :
        (now : ℕ) (nonce : List ℕ) (scope : Option Scope) (db : Db)
        → select_label session vhash db.rows ≡ none
        → tokenize ext true now ttl nonce session_id entity_type value scope db
          ≡ tokenize_locked ext now ttl nonce session_id etype value (scope_or_default scope) db
    unfolding tokenize tokenize_between
    tokenize_fresh now nonce scope db e = rw e

    -- As long as nothing else happens to the vault, the same value of the same session and type
    -- keeps its label: a later call, at any time and with any nonce and scope, returns the label
    -- of the first and changes nothing.
    pub tokenize_stable :
        (now now' : ℕ) (nonce nonce' : List ℕ) (scope scope' : Option Scope) (db : Db) (label : Str)
        → (tokenize ext true now ttl nonce session_id entity_type value scope db).0 ≡ ok label
        → let db' = (tokenize ext true now ttl nonce session_id entity_type value scope db).1 in
          tokenize ext true now' ttl nonce' session_id entity_type value scope' db'
          ≡ (ok label, db')
    tokenize_stable now now' nonce nonce' scope scope' db label h =
        elim (Option-cases (select_label session vhash db.rows)) [
          | inr (old, e) ↦
              let first = tokenize_known now nonce scope db old e in
              let same : old ≡ label = ground (arith, ap (λ r. r.0) first) in
              rw first (tokenize_known now' nonce' scope' db old e ∙ ap (λ l. (ok l, db)) same)
          | inl e ↦
              let first = tokenize_fresh now nonce scope db e in
              let kept =
                select_label-locked now nonce (scope_or_default scope) db label
                  (sym (ap (λ r. r.0) first) ∙ h) in
              rw first (tokenize_known now' nonce' scope' _ label kept)
        ]

    -- The label of a fresh value has the number that follows the rows of its session and type.
    pub label-tokenize_fresh :
        (now : ℕ) (nonce : List ℕ) (scope : Option Scope) (db : Db) (blob : List ℕ)
        → select_label session vhash db.rows ≡ none
        → encrypt ext nonce value ≡ ok blob
        → (tokenize ext true now ttl nonce session_id entity_type value scope db).0
          ≡ ok (token_label etype (count session etype db.rows + 1))
    unfolding tokenize tokenize_between tokenize_locked
    label-tokenize_fresh now nonce scope db blob e f = ground (arith, e, f)

    label_matches :
        (row : Row)
        → row.session_id ≡ session
        → row.revoked_at ≡ none
        → same_label session row.token_label row ≡ true
    label_matches row own active =
        ground (arith, eq_iff row.session_id session, eq_refl row.token_label)

    -- The locked part at a fresh value: the new row stands before the others.
    locked_row :
        (now : ℕ) (nonce : List ℕ) (scope : Scope) (db : Db) (blob : List ℕ)
        → select_label session vhash db.rows ≡ none
        → encrypt ext nonce value ≡ ok blob
        → let r = tokenize_locked ext now ttl nonce session_id etype value scope db in
          (row : Row) × (r.0 ≡ ok row.token_label)
          × (r.1.rows ≡ row ∷ db.rows)
          × (row.session_id ≡ session)
          × (row.revoked_at ≡ none)
          × (row.expires_at ≡ now + ttl * 1000000)
          × (row.access_scope ≡ scope)
          × (row.cipher_value ≡ blob)
    unfolding tokenize_locked
    locked_row now nonce scope db blob e f = (
      record {
        token_id = db.next_id;
        session_id = session;
        entity_type = etype;
        token_label = token_label etype (count session etype db.rows + 1);
        cipher_value = blob;
        value_hash = vhash;
        access_scope = scope;
        expires_at = now + ttl * 1000000;
        revoked_at = none;
      },
      ground (arith, e, f),
      ground (arith, e, f),
      refl,
      refl,
      refl,
      refl,
      refl,
    )

    -- A round trip: a value that the session has no active token for is given back for its new
    -- label, before the token expires, to a role and a purpose that the scope allows. Labels are
    -- numbered, the database answers both calls, the key is configured, the libraries do what they
    -- document, every text can be encoded, and the nonce has 12 bytes.
    pub detokenize-tokenize :
        (now now' : ℕ) (nonce : List ℕ) (scope : Option Scope) (role purpose : Option Str) (db : Db)
        → IsFaithful ext
        → ext.cipher_ready ≡ true
        → length nonce ≡ 12
        → IsNumbered db.rows
        → select_label session vhash db.rows ≡ none
        → now' < now + ttl * 1000000
        → scope_allows (scope_or_default scope) role purpose ≡ none
        → let r = tokenize ext true now ttl nonce session_id entity_type value scope db in
          (label : Str) × (r.0 ≡ ok label)
          × ((detokenize ext true now' session_id label role purpose r.1).0 ≡ some value)
    detokenize-tokenize now now' nonce scope role purpose db laws ready twelve numbered new live
          fits =
        let blob = nonce ++ ext.seal nonce (ext.utf8_encode value) in
        let sealed : encrypt ext nonce value ≡ ok blob = unfold encrypt in rw ready in
        let (row, answer, rows, own, active, expiry, scoped, cipher) =
          locked_row now nonce (scope_or_default scope) db blob new sealed in
        let after =
          tokenize_locked ext now ttl nonce session_id etype value (scope_or_default scope) db in
        let unique : HasUniqueLabels after.1.rows = IsNumbered-HasUniqueLabels after.1.rows (
          tokenize_locked-IsNumbered ext now ttl nonce session_id etype value _ db
            (normalize_entity_type-Lacks entity_type) numbered) in
        let stored : Member row after.1.rows = subst (Member row) (sym rows) (inl refl) in
        let found : same_label session row.token_label row ≡ true = label_matches row own active in
        let back =
          detokenize_restores ext true now' session_id row.token_label role purpose after.1 value
            row refl unique stored found (rw expiry live) (rw scoped fits)
            (rw cipher (decrypt-encrypt nonce value blob laws twelve sealed)) in
        rw (tokenize_fresh now nonce scope db new) (row.token_label, answer, ap (λ r. r.0) back)
