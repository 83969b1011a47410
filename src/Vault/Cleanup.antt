-- ===== src/Vault/Cleanup.antt =====
-- vault.py: what `revoke_session` and `purge_expired` leave behind.
use dlp_server.Base.{
  ℕ, ◌+◌, ◌≤◌, ◌<◌, ◌≡◌, ◌≢◌, refl, ap, subst, Bool, true, false, not, Option, none, some, List, [],
  ◌∷◌, map, ltb, All, All-filter, All-map_of, Member, Member-map, Member-filter_of, Member-filter,
  Bool-cases, inr, filter, find, find-none, inl, arith,
}
use dlp_server.Base.Members.{Member-all_of}
use dlp_server.Base.Str.{Str, eq, eq_sound}
use dlp_server.Vault.Rows.{Row, Db, same_label, is_active}
use dlp_server.Vault.Crypto.{External, coerce_session_uuid}
use dlp_server.Vault.Detokenize.{detokenize}
use dlp_server.Vault.Lifetime.{day, revoke_where, is_stale, revoke_session, purge_expired}

revoked_misses :
    (now : ℕ) (session label : Str) (r : Row)
    → same_label session label (revoke_where now (λ q. eq q.session_id session) r) ≡ false
revoked_misses now session label r = ground arith

revoked_keeps :
    (now : ℕ) (ended session label : Str) (r : Row)
    → ended ≢ session
    → same_label session label r ≡ true
    → revoke_where now (λ q. eq q.session_id ended) r ≡ r
revoked_keeps now ended session label r other h =
    ground (arith, eq_sound r.session_id session, eq_sound r.session_id ended, other, h)

revoked_label :
    (now : ℕ) (ended session label : Str) (r : Row)
    → ended ≢ session
    → same_label session label (revoke_where now (λ q. eq q.session_id ended) r)
      ≡ same_label session label r
revoked_label now ended session label r other =
    ground (arith, eq_sound r.session_id session, eq_sound r.session_id ended, other)

find-revoke_where :
    (now : ℕ) (ended session label : Str) (rows : List Row)
    → ended ≢ session
    → find (same_label session label) (map (revoke_where now (λ q. eq q.session_id ended)) rows)
      ≡ find (same_label session label) rows
find-revoke_where now ended session label [] other = refl
find-revoke_where now ended session label (r ∷ rows) other =
    let same = revoked_label now ended session label r other in
    elim (Bool-cases (same_label session label r)) [
      | inl e ↦ rw (same, e) (ap some (revoked_keeps now ended session label r other e))
      | inr e ↦ rw (same, e) (find-revoke_where now ended session label rows other)
    ]

-- After a `revoke_session` that the database carries out, no label of the session gives a value
-- back, to any role and for any purpose, at any later call; and what the labels of every other
-- session give back is as before.
pub detokenize-revoke_session :
    (ext : External) (up : Bool) (now now' : ℕ) (session_id label : Str) (role purpose : Option Str)
    (db : Db)
    → let revoked = revoke_session ext true now session_id db in
      ((detokenize ext up now' session_id label role purpose revoked).0 ≡ none)
      × ((other : Str)
          → coerce_session_uuid ext session_id ≢ coerce_session_uuid ext other
          → (detokenize ext up now' other label role purpose revoked).0
            ≡ (detokenize ext up now' other label role purpose db).0)
unfolding revoke_session detokenize
detokenize-revoke_session ext up now now' session_id label role purpose db =
    let session = coerce_session_uuid ext session_id in
    let gone = find-none (same_label session label) _ (
      All-map_of (λ r. same_label session label r ≡ false)
        (revoke_where now (λ q. eq q.session_id session)) db.rows
        (revoked_misses now session label)) in
    (
      ground (arith, gone),
      λ other apart.
          let kept =
            find-revoke_where now session (coerce_session_uuid ext other) label db.rows apart in
          ground (arith, kept),
    )

purged_is_live :
    (now : ℕ) (r : Row)
    → is_active (revoke_where now (λ q. ltb q.expires_at now) r) ≡ true
    → now ≤ (revoke_where now (λ q. ltb q.expires_at now) r).expires_at
purged_is_live now r h = ground arith

pub live_is_kept :
    (now : ℕ) (r : Row)
    → is_active r ≡ true
    → now ≤ r.expires_at
    → revoke_where now (λ q. ltb q.expires_at now) r ≡ r
live_is_kept now r a h = ground arith

pub active_is_fresh : (now : ℕ) (r : Row) → is_active r ≡ true → not (is_stale now r) ≡ true
active_is_fresh now r a = ground arith

purged_is_recent :
    (now : ℕ) (r : Row) (t : ℕ)
    → not (is_stale now r) ≡ true
    → r.revoked_at ≡ some t
    → now ≤ t + day
purged_is_recent now r t fresh e = ground (arith, fresh, e)

expired_is_revoked :
    (now : ℕ) (r : Row)
    → is_active r ≡ true
    → r.expires_at < now
    → revoke_where now (λ q. ltb q.expires_at now) r ≡ record r { revoked_at = some now }
expired_is_revoked now r a h = ground arith

revoked_is_kept :
    (now : ℕ) (r : Row) (t : ℕ)
    → r.revoked_at ≡ some t
    → revoke_where now (λ q. ltb q.expires_at now) r ≡ r
revoked_is_kept now r t e = ground (arith, e)

recent_is_fresh :
    (now : ℕ) (r : Row) (t : ℕ)
    → r.revoked_at ≡ some t
    → now ≤ t + day
    → not (is_stale now r) ≡ true
recent_is_fresh now r t e h = ground (arith, e, h)

-- A row that the soft revocation makes `r'`, and that is not stale then, is there after the purge.
Member-purge_expired :
    (now : ℕ) (db : Db) (r r' : Row)
    → Member r db.rows
    → revoke_where now (λ q. ltb q.expires_at now) r ≡ r'
    → not (is_stale now r') ≡ true
    → Member r' (purge_expired true now db).rows
unfolding purge_expired
Member-purge_expired now db r r' m e fresh =
    let soft = revoke_where now (λ q. ltb q.expires_at now) in
    Member-filter_of (λ q. not (is_stale now q)) r' (map soft db.rows)
      (subst (λ z. Member z (map soft db.rows)) e (Member-map soft r db.rows m)) fresh

-- A `purge_expired` that the database carries out at a time leaves no active row that expired
-- before it, and no row that was revoked more than a day before it. An active row that had not
-- expired is still there, unchanged; one that had is there as revoked at that time; and a row that
-- was revoked at most a day before is still there, unchanged.
pub purge_expired_exact :
    (now : ℕ) (db : Db)
    → let rows = (purge_expired true now db).rows in
      All (λ r. is_active r ≡ true → now ≤ r.expires_at) rows
      × All (λ r. (t : ℕ) → r.revoked_at ≡ some t → now ≤ t + day) rows
      × ((r : Row)
          → Member r db.rows
          → (is_active r ≡ true → now ≤ r.expires_at → Member r rows)
            × (is_active r ≡ true
                → r.expires_at < now
                → Member (record r { revoked_at = some now }) rows)
            × ((t : ℕ) → r.revoked_at ≡ some t → now ≤ t + day → Member r rows))
unfolding purge_expired
purge_expired_exact now db =
    let soft = revoke_where now (λ q. ltb q.expires_at now) in
    let fresh = λ (r : Row). not (is_stale now r) in
    (
      All-filter _ fresh (map soft db.rows) (All-map_of _ soft db.rows (purged_is_live now)),
      Member-all_of _ (filter fresh (map soft db.rows))
          (λ r m t. purged_is_recent now r t (Member-filter fresh r (map soft db.rows) m).1),
      λ r m. (
        λ a h. Member-purge_expired now db r r m (live_is_kept now r a h) (active_is_fresh now r a),
        λ a h.
            Member-purge_expired now db r (record r { revoked_at = some now }) m
              (expired_is_revoked now r a h)
              (recent_is_fresh now (record r { revoked_at = some now }) now refl (omega arith)),
        λ t e h.
            Member-purge_expired now db r r m (revoked_is_kept now r t e)
              (recent_is_fresh now r t e h),
      ),
    )
