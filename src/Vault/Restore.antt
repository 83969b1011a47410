-- ===== src/Vault/Restore.antt =====
-- vault.py: when `detokenize` gives the original back, and what it logs.
use dlp_server.Base.{
  ℕ, ◌<◌, ◌≡◌, refl, sym, ◌∙◌, ap, subst, Bool, true, false, not, Option, none, some, List, [], ◌∷◌,
  ok, raised, leb, Member, Member-All, find, find_found, Bool-cases, Option-cases, Result-cases,
  ◌⊎◌, inl, inr, arith,
}
use dlp_server.Base.Str.{Str, str, eq_sound}
use dlp_server.Vault.Rows.{Row, Db, Access, same_label}
use dlp_server.Vault.Crypto.{External, coerce_session_uuid, decrypt}
use dlp_server.Vault.Detokenize.{
  scope_allows, axis, axis_allows, role_or_empty, log_access, detokenize, unknown_or_revoked,
  expired,
}
use dlp_server.Vault.Numbering.{HasUniqueLabels}

same_label→eq :
    (s l : Str) (r : Row) → same_label s l r ≡ true → (r.session_id ≡ s) × (r.token_label ≡ l)
same_label→eq s l r h = ground (arith, eq_sound r.session_id s, eq_sound r.token_label l)

-- Where labels are unique, the query finds the one row that it asks for, in any order of rows.
find_unique :
    (s l : Str) (rows : List Row) (r : Row)
    → HasUniqueLabels rows
    → Member r rows
    → same_label s l r ≡ true
    → find (same_label s l) rows ≡ some r
find_unique s l [] r u m h = absurd m.1
find_unique s l (x ∷ rows) r u (inl e) h =
    let t : same_label s l x ≡ true = subst (λ z. same_label s l z ≡ true) e h in
    rw t (ap some (sym e))
find_unique s l (x ∷ rows) r u (inr m) h = elim (Bool-cases (same_label s l x)) [
  | inl e ↦
      let (a, b) = same_label→eq s l x e in
      let (c, d) = same_label→eq s l r h in
      let apart = Member-All _ r rows u.0 m in absurd (apart (c ∙ sym a) (d ∙ sym b))
  | inr e ↦ rw e (find_unique s l rows r u.1 m h)
]

module _ (ext : External) (up : Bool) (now : ℕ) (session_id label : Str) (role purpose : Option Str)
    (db : Db) where
  abbrev session : Str
  session = coerce_session_uuid ext session_id

  -- why a value was given back
  pub record IsGranted (value : Str) (row : Row) : Type 0 where
    pub stored : Member row db.rows
    pub active : same_label session label row ≡ true
    pub live : now < row.expires_at
    pub role_fits : axis_allows (axis (str "roles") row.access_scope) role ≡ true
    pub purpose_fits : axis_allows (axis (str "purposes") row.access_scope) purpose ≡ true
    pub opens : decrypt ext row.cipher_value ≡ ok value
    pub logged :
        (detokenize ext up now session_id label role purpose db).1
        ≡ log_access ext (some row.token_id) session_id label role purpose true none db

  -- `detokenize` gives a value only from a stored row of the session with that label that is not
  -- revoked and not expired, whose scope allows the role and the purpose, and whose ciphertext
  -- opens to the value; and then it logs the attempt as granted.
  pub detokenize-IsGranted :
      (value : Str)
      → (detokenize ext up now session_id label role purpose db).0 ≡ some value
      → (row : Row) × IsGranted value row
  unfolding detokenize scope_allows
  detokenize-IsGranted value h = elim (Option-cases (find (same_label session label) db.rows)) [
    | inl e ↦ absurd (ground (arith, e))
    | inr (row, e) ↦
        let (stored, active) = find_found (same_label session label) db.rows row e in
        (
          row,
          record {
            stored = stored;
            active = active;
            live = ground (arith, e);
            role_fits = ground (arith, e);
            purpose_fits = ground (arith, e);
            opens = ground (arith, e);
            logged = ground (arith, e);
          },
        )
  ]

  -- If the labels of each session are unique and the database answers, then the value of an
  -- active row of the session with the label, which expires later, whose scope allows the role and
  -- the purpose and whose ciphertext opens, is given back, and the attempt is logged as granted.
  pub detokenize_restores :
      (value : Str) (row : Row)
      → up ≡ true
      → HasUniqueLabels db.rows
      → Member row db.rows
      → same_label session label row ≡ true
      → now < row.expires_at
      → scope_allows row.access_scope role purpose ≡ none
      → decrypt ext row.cipher_value ≡ ok value
      → detokenize ext up now session_id label role purpose db ≡ (
        some value,
        log_access ext (some row.token_id) session_id label role purpose true none db,
      )
  unfolding detokenize
  detokenize_restores value row on unique stored active live fits opens =
      let e = find_unique session label db.rows row unique stored active in ground (arith, e)

abbrev pub is_some {ℓ} : {A : Type ℓ} → Option A → Bool
is_some none = false
is_some (some a) = true

module _ (ext : External) (now : ℕ) (session_id label : Str) (role purpose : Option Str)
    (db : Db) where
  entry : Option ℕ → Bool → Option Str → Access
  entry token_id granted reason = record {
    token_id = token_id;
    session_id = coerce_session_uuid ext session_id;
    token_label = label;
    requested_role = role_or_empty role;
    requested_purpose = purpose;
    granted = granted;
    denied_reason = reason;
  }

  -- what an attempt adds to the log
  pub record LogsOne (r : Option Str × Db) (a : Access) : Type 0 where
    pub added : r.1.log ≡ a ∷ db.log
    pub asked : (a.token_label ≡ label) × (a.session_id ≡ coerce_session_uuid ext session_id)
    pub who : (a.requested_role ≡ role_or_empty role) × (a.requested_purpose ≡ purpose)
    pub outcome : a.granted ≡ is_some r.0
    pub reason : is_some a.denied_reason ≡ not a.granted
    pub kept : r.1.rows ≡ db.rows

  LogsOne-entry :
      (token_id : Option ℕ) (answer why : Option Str)
      → is_some why ≡ not (is_some answer)
      → LogsOne
          (answer, log_access ext token_id session_id label role purpose (is_some answer) why db)
          (entry token_id (is_some answer) why)
  unfolding log_access entry
  LogsOne-entry token_id answer why h = record {
    added = refl;
    asked = (refl, refl);
    who = (refl, refl);
    outcome = refl;
    reason = h;
    kept = refl;
  }

  -- an attempt that passes every check, but whose ciphertext does not open
  pub record IsUnopened (r : Option Str × Db) (row : Row) : Type 0 where
    pub stored : Member row db.rows
    pub active : same_label (coerce_session_uuid ext session_id) label row ≡ true
    pub live : now < row.expires_at
    pub fits : scope_allows row.access_scope role purpose ≡ none
    pub broken : decrypt ext row.cipher_value ≡ raised
    pub silent : r ≡ (none, db)

  -- With a database that carries out the queries of the call, every attempt adds exactly one entry
  -- to the access log, for the label, the session, the role and the purpose that were given; it is
  -- granted exactly if the value was given back, and has a reason exactly if it was not; and no
  -- row changes. The one exception is an attempt on a stored row that passes every check but whose
  -- ciphertext does not open: it gives nothing back, and leaves no entry.
  pub detokenize_logs :
      let answer = detokenize ext true now session_id label role purpose db in
      ((a : Access) × LogsOne answer a) ⊎ ((row : Row) × IsUnopened answer row)
  unfolding detokenize
  detokenize_logs =
      let test = same_label (coerce_session_uuid ext session_id) label in
      elim (Option-cases (find test db.rows)) [
        | inl e ↦
            inl (entry none false (some unknown_or_revoked), rw e (LogsOne-entry none none _ refl))
        | inr (row, e) ↦ elim (Bool-cases (leb row.expires_at now)) [
          | inl late ↦ inl (
            entry (some row.token_id) false (some expired),
            rw (e, late) (LogsOne-entry (some row.token_id) none _ refl),
          )
          | inr live ↦ elim (Option-cases (scope_allows row.access_scope role purpose)) [
            | inr (why, denied) ↦ inl (
              entry (some row.token_id) false (some why),
              rw (e, live, denied) (LogsOne-entry (some row.token_id) none (some why) refl),
            )
            | inl fits ↦ elim (Result-cases (decrypt ext row.cipher_value)) [
              | inr broken ↦ inr (
                row,
                record {
                  stored = (find_found test db.rows row e).0;
                  active = (find_found test db.rows row e).1;
                  live = ground (arith, live);
                  fits = fits;
                  broken = broken;
                  silent = rw (e, live, fits, broken) refl;
                },
              )
              | inl (value, opened) ↦ inl (
                entry (some row.token_id) true none,
                rw (e, live, fits, opened)
                    (LogsOne-entry (some row.token_id) (some value) none refl),
              )
            ]
          ]
        ]
      ]
