-- ===== src/Vault/Numbering.antt =====
-- vault.py: the labels of a session are numbered without repetition, as long as no row is
-- deleted.
use native.Mathlib.Nat.{le_trans}
use dlp_server.Base.{
  ℕ, suc, ◌+◌, ◌≤◌, ◌≡◌, ◌≢◌, sym, ◌∙◌, subst, List, [], ◌∷◌, All, All-map, Bool-cases, inl, inr,
  arith,
}
use dlp_server.Base.Str.{Str, eq_refl}
use dlp_server.Vault.Rows.{Row, same_kind, count}
use dlp_server.Vault.Label.{Lacks, token_label, token_label_injective}

-- each row, the newest first, has the number that follows those of its session and type
abbrev pub IsNumbered : List Row → Type 0
IsNumbered [] = Unit
IsNumbered (r ∷ older) =
    (r.token_label ≡ token_label r.entity_type (count r.session_id r.entity_type older + 1))
    × Lacks b':' r.entity_type
    × IsNumbered older

-- no two rows of a session have the same label
abbrev pub HasUniqueLabels : List Row → Type 0
HasUniqueLabels [] = Unit
HasUniqueLabels (r ∷ older) =
    All (λ q. q.session_id ≡ r.session_id → q.token_label ≢ r.token_label) older
    × HasUniqueLabels older

-- the label of `q` has a number that the rows of its session and type count
record HasNumber (rows : List Row) (q : Row) : Type 0 where
  number : ℕ
  label : q.token_label ≡ token_label q.entity_type number
  bound : number ≤ count q.session_id q.entity_type rows
  plain : Lacks b':' q.entity_type

count-cons_le :
    (session etype : Str) (r : Row) (rows : List Row)
    → count session etype rows ≤ count session etype (r ∷ rows)
unfolding count
count-cons_le session etype r rows = elim (Bool-cases (same_kind session etype r)) [
  | inl e ↦ rw e (omega arith)
  | inr e ↦ rw e (omega arith)
]

count-cons_self :
    (r : Row) (rows : List Row)
    → count r.session_id r.entity_type (r ∷ rows) ≡ suc (count r.session_id r.entity_type rows)
unfolding count
count-cons_self r rows = rw (eq_refl r.session_id, eq_refl r.entity_type)

HasNumber-cons : (r q : Row) (rows : List Row) → HasNumber rows q → HasNumber (r ∷ rows) q
HasNumber-cons r q rows h = record {
  number = h.number;
  label = h.label;
  bound = le_trans h.bound (count-cons_le q.session_id q.entity_type r rows);
  plain = h.plain;
}

IsNumbered-HasNumber : (rows : List Row) → IsNumbered rows → All (HasNumber rows) rows
IsNumbered-HasNumber [] h = tt
IsNumbered-HasNumber (r ∷ older) h = (
  record {
    number = count r.session_id r.entity_type older + 1;
    label = h.0;
    bound = omega (arith, count-cons_self r older);
    plain = h.1;
  },
  All-map (λ q. HasNumber-cons r q older) older (IsNumbered-HasNumber older h.2),
)

label_is_new :
    (r q : Row) (older : List Row)
    → Lacks b':' r.entity_type
    → HasNumber older q
    → q.session_id ≡ r.session_id
    → q.token_label ≢ token_label r.entity_type (count r.session_id r.entity_type older + 1)
label_is_new r q older plain h same e =
    let (types, numbers) =
      token_label_injective q.entity_type r.entity_type h.number
        (count r.session_id r.entity_type older + 1) h.plain plain (sym h.label ∙ e) in
    let fits : h.number ≤ count r.session_id r.entity_type older =
      subst (λ t. h.number ≤ count t r.entity_type older) same
        (subst (λ t. h.number ≤ count q.session_id t older) types h.bound) in
    absurd (omega arith)

-- Numbered labels are unique.
pub IsNumbered-HasUniqueLabels : (rows : List Row) → IsNumbered rows → HasUniqueLabels rows
IsNumbered-HasUniqueLabels [] h = tt
IsNumbered-HasUniqueLabels (r ∷ older) h = (
  All-map (λ q k same e. label_is_new r q older h.1 k same (e ∙ h.0)) older
      (IsNumbered-HasNumber older h.2),
  IsNumbered-HasUniqueLabels older h.2,
)
