-- ===== src/Vault/Reach.antt =====
-- vault.py: what holds of every state that the calls lead to, `purge_expired` excepted.
use dlp_server.Base.{
  ℕ, suc, ◌≡◌, refl, sym, subst, Bool, true, false, Option, List, [], ◌∷◌, map, if◌then◌else◌, All,
  Bool-cases, inl, inr, arith,
}
use dlp_server.Base.Str.{Str, eq, eq_sound, contains}
use dlp_server.Base.Unicode.{Unicode}
use dlp_server.Vault.Rows.{Row, Db, Scope, same_kind, count}
use dlp_server.Vault.Label.{Lacks}
use dlp_server.Vault.Crypto.{External}
use dlp_server.Vault.Tokenize.{entity_types, unknown_type, normalize_entity_type, tokenize_locked}
use dlp_server.Vault.Detokenize.{detokenize, log_access}
use dlp_server.Vault.Lifetime.{revoke_where, revoke_session}
use dlp_server.Vault.Numbering.{IsNumbered, HasUniqueLabels, IsNumbered-HasUniqueLabels}

contains_rest :
    (x : Str) (xs : List Str) (s : Str)
    → eq x s ≡ false
    → contains (x ∷ xs) s ≡ true
    → contains xs s ≡ true
unfolding contains
contains_rest x xs s t e = ground (arith, e)

contains-All {κ} :
    (P : Str → Type κ) (xs : List Str) (s : Str) → All P xs → contains xs s ≡ true → P s
contains-All P [] s h e = unfold contains in cc
contains-All P (x ∷ xs) s h e = elim (Bool-cases (eq x s)) [
  | inl t ↦ subst P (eq_sound x s t) h.0
  | inr t ↦ contains-All P xs s h.1 (contains_rest x xs s t e)
]

entity_types-Lacks : All (Lacks b':') entity_types
unfolding entity_types
entity_types-Lacks = ground arith

Lacks_if :
    (b : Bool) (t : Str) → (b ≡ true → Lacks b':' t) → Lacks b':' (if b then t else unknown_type)
unfolding unknown_type
Lacks_if true t h = h refl
Lacks_if false t h = ground arith

-- A normalised type has no colon.
pub normalize_entity_type-Lacks : ⦃u : Unicode⦄ (t : Str) → Lacks b':' (normalize_entity_type t)
unfolding normalize_entity_type
normalize_entity_type-Lacks t =
    Lacks_if _ _ (contains-All (Lacks b':') entity_types _ entity_types-Lacks)

pub count-cons :
    (session etype : Str) (r : Row) (rows : List Row)
    → count session etype (r ∷ rows) ≡ (
        if same_kind session etype r
        then suc (count session etype rows)
        else count session etype rows)
unfolding count
count-cons session etype r rows = elim (Bool-cases (same_kind session etype r)) [
  | inl e ↦ rw e
  | inr e ↦ rw e
]

-- an update that leaves the session, the type and the label alone
record IsSoft (f : Row → Row) : Type 0 where
  session : (r : Row) → (f r).session_id ≡ r.session_id
  type : (r : Row) → (f r).entity_type ≡ r.entity_type
  label : (r : Row) → (f r).token_label ≡ r.token_label

count-map :
    (f : Row → Row)
    → IsSoft f
    → (session etype : Str) (rows : List Row)
    → count session etype (map f rows) ≡ count session etype rows
count-map f h session etype [] = refl
count-map f h session etype (r ∷ rows) =
    let kind : same_kind session etype (f r) ≡ same_kind session etype r = rw (h.session, h.type) in
    rw (
      count-cons session etype (f r),
      count-cons session etype r rows,
      kind,
      count-map f h session etype rows,
    )

IsNumbered-map :
    (f : Row → Row) → IsSoft f → (rows : List Row) → IsNumbered rows → IsNumbered (map f rows)
IsNumbered-map f h [] n = tt
IsNumbered-map f h (r ∷ rows) n = (
  rw (h.label, h.session, h.type, count-map f h r.session_id r.entity_type rows) n.0,
  rw h.type n.1,
  IsNumbered-map f h rows n.2,
)

revoke_where-IsSoft : (now : ℕ) (test : Row → Bool) → IsSoft (revoke_where now test)
revoke_where-IsSoft now test = record {
  session = λ r. ground arith;
  type = λ r. ground arith;
  label = λ r. ground arith;
}

module _ (ext : External) ⦃u : Unicode⦄ where
  -- the committed effect of a call: `tokenize` changes the rows under its lock only
  pub data Step : Db → Db → Type 0 where
    tokenized :
        (now ttl : ℕ) (nonce : List ℕ) (session_id entity_type value : Str) (scope : Scope)
        (db : Db)
        → Step db
            (tokenize_locked ext now ttl nonce session_id
              (normalize_entity_type entity_type)
              value
              scope
              db).1
    detokenized :
        (up : Bool) (now : ℕ) (session_id label : Str) (role purpose : Option Str) (db : Db)
        → Step db (detokenize ext up now session_id label role purpose db).1
    revoked :
        (up : Bool) (now : ℕ) (session_id : Str) (db : Db)
        → Step db (revoke_session ext up now session_id db)

  pub data Reach (start : Db) : Db → Type 0 where
    here : Reach start start
    next : {db db' : Db} → Reach start db → Step db db' → Reach start db'

  pub tokenize_locked-IsNumbered :
      (now ttl : ℕ) (nonce : List ℕ) (session_id etype value : Str) (scope : Scope) (db : Db)
      → Lacks b':' etype
      → IsNumbered db.rows
      → IsNumbered (tokenize_locked ext now ttl nonce session_id etype value scope db).1.rows
  unfolding tokenize_locked
  tokenize_locked-IsNumbered now ttl nonce session_id etype value scope db plain h = ground arith

  rows-detokenize :
      (up : Bool) (now : ℕ) (session_id label : Str) (role purpose : Option Str) (db : Db)
      → (detokenize ext up now session_id label role purpose db).1.rows ≡ db.rows
  unfolding detokenize log_access
  rows-detokenize up now session_id label role purpose db = ground arith

  revoke_session-IsNumbered :
      (up : Bool) (now : ℕ) (session_id : Str) (db : Db)
      → IsNumbered db.rows
      → IsNumbered (revoke_session ext up now session_id db).rows
  unfolding revoke_session
  revoke_session-IsNumbered true now session_id db h =
      IsNumbered-map _ (revoke_where-IsSoft now _) db.rows h
  revoke_session-IsNumbered false now session_id db h = h

  Step-IsNumbered : {db db' : Db} → Step db db' → IsNumbered db.rows → IsNumbered db'.rows
  Step-IsNumbered (tokenized now ttl nonce s e v scope db) h =
      tokenize_locked-IsNumbered now ttl nonce s _ v scope db (normalize_entity_type-Lacks e) h
  Step-IsNumbered (detokenized up now s label role purpose db) h =
      subst IsNumbered (sym (rows-detokenize up now s label role purpose db)) h
  Step-IsNumbered (revoked up now s db) h = revoke_session-IsNumbered up now s db h

  pub Reach-IsNumbered :
      {start db : Db} → IsNumbered start.rows → Reach start db → IsNumbered db.rows
  Reach-IsNumbered h here = h
  Reach-IsNumbered h (next r st) = Step-IsNumbered st (Reach-IsNumbered h r)

  -- From numbered rows, however `tokenize`, `detokenize` and `revoke_session` calls follow one
  -- another, no two rows of a session, revoked ones included, have the same label.
  pub Reach-HasUniqueLabels :
      (start db : Db) → IsNumbered start.rows → Reach start db → HasUniqueLabels db.rows
  Reach-HasUniqueLabels start db h r = IsNumbered-HasUniqueLabels db.rows (Reach-IsNumbered h r)
