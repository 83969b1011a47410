-- ===== src/Vault/Reuse.antt =====
-- vault.py: the numbering of labels after a purge.
use dlp_server.Base.{
  ℕ, ◌+◌, ◌≤◌, ◌≡◌, refl, sym, ◌∙◌, ap, subst, true, not, Option, none, List, [], ◌∷◌, map, ok, ltb,
  Member, filter, inl, arith,
}
use dlp_server.Base.Str.{Str, eq_iff}
use dlp_server.Base.Unicode.{Unicode}
use dlp_server.Vault.Rows.{Row, Db, Scope, is_active, count, select_label}
use dlp_server.Vault.Label.{token_label}
use dlp_server.Vault.Crypto.{External, coerce_session_uuid, hash, encrypt}
use dlp_server.Vault.Tokenize.{normalize_entity_type, tokenize}
use dlp_server.Vault.Lifetime.{revoke_where, is_stale, purge_expired}
use dlp_server.Vault.Numbering.{IsNumbered}
use dlp_server.Vault.Tokens.{label-tokenize_fresh}
use dlp_server.Vault.Cleanup.{live_is_kept, active_is_fresh}

-- A purge takes the stale rows away, and no others, from those of a session and type.
count-purge_expired :
    (now : ℕ) (session etype : Str) (rows : List Row)
    → count session etype (
          filter
            (λ r. not (is_stale now r))
            (map (revoke_where now (λ q. ltb q.expires_at now)) rows))
        + count session etype (filter (is_stale now) rows)
      ≡ count session etype rows
unfolding count
count-purge_expired now session etype [] = refl
count-purge_expired now session etype (r ∷ rows) =
    ground (arith, count-purge_expired now session etype rows)

-- the newest row is an active token of a session and type, of which exactly one older row was
-- revoked more than a day ago
pub record IsAged (session etype : Str) (now : ℕ) (live : Row) (older : List Row) : Type 0 where
  pub numbered : IsNumbered (live ∷ older)
  pub session_of : live.session_id ≡ session
  pub type_of : live.entity_type ≡ etype
  pub active : is_active live ≡ true
  pub unexpired : now ≤ live.expires_at
  pub one_stale : count session etype (filter (is_stale now) older) ≡ 1

module _ (session etype : Str) (now : ℕ) (live : Row) (older : List Row)
    (aged : IsAged session etype now live older) where
  rest_after : List Row
  rest_after =
      filter (λ r. not (is_stale now r)) (map (revoke_where now (λ q. ltb q.expires_at now)) older)

  rows-purge :
      (db : Db) → db.rows ≡ live ∷ older → (purge_expired true now db).rows ≡ live ∷ rest_after
  unfolding purge_expired rest_after
  rows-purge db e =
      rw (e, live_is_kept now live aged.active aged.unexpired, active_is_fresh now live aged.active)
        refl

  next_number : count session etype (live ∷ rest_after) + 1 ≡ count session etype older + 1
  unfolding count rest_after
  next_number = ground (
    arith,
    aged.session_of,
    aged.type_of,
    aged.one_stale,
    eq_iff live.session_id session,
    eq_iff live.entity_type etype,
    count-purge_expired now session etype older,
  )

  label_again : token_label etype (count session etype (live ∷ rest_after) + 1) ≡ live.token_label
  label_again =
      ap (token_label etype) next_number
      ∙ sym (
          aged.numbered.0
          ∙ ap (λ s. token_label live.entity_type (count s live.entity_type older + 1))
              aged.session_of
          ∙ ap (λ t. token_label t (count session t older + 1)) aged.type_of)

-- A purge lets a label be used twice: where the rows of the vault are numbered, the newest is
-- an active token that has not expired, and exactly one older row of its session and type was revoked more than a day
-- before the purge, the purge keeps the token, and the next new value of that session and type
-- gets the label that the token has, if the database answers and the value can be encrypted.
pub tokenize-purge_reuses :
    (ext : External) ⦃u : Unicode⦄ (now now' ttl : ℕ) (nonce : List ℕ)
    (session_id entity_type value : Str) (scope : Option Scope) (live : Row) (older : List Row)
    (db : Db) (blob : List ℕ)
    → IsAged (coerce_session_uuid ext session_id) (normalize_entity_type entity_type) now live older
    → db.rows ≡ live ∷ older
    → let db' = purge_expired true now db in
      select_label
          (coerce_session_uuid ext session_id)
          (hash ext session_id (normalize_entity_type entity_type) value)
          db'.rows
        ≡ none
      → encrypt ext nonce value ≡ ok blob
      → Member live db'.rows
        × ((tokenize ext true now' ttl nonce session_id entity_type value scope db').0
            ≡ ok live.token_label)
tokenize-purge_reuses ext now now' ttl nonce session_id entity_type value scope live older db blob
      aged e fresh sealed =
    let session = coerce_session_uuid ext session_id in
    let etype = normalize_entity_type entity_type in
    let left = rows-purge session etype now live older aged db e in
    (
      subst (Member live) (sym left) (inl refl),
      label-tokenize_fresh ext ttl session_id entity_type value now' nonce scope
            (purge_expired true now db) blob fresh sealed
          ∙ ap (λ rows. ok (token_label etype (count session etype rows + 1))) left
          ∙ ap ok (label_again session etype now live older aged),
    )
