-- ===== src/Vault/Scan.antt =====
-- `detokenize_text` of vault.py: TOKEN_LABEL_RE = <PII:([A-Z_]+):(\d+)> is replaced from the left.
-- No character of a class of the pattern can begin what follows it, so the greedy match is the
-- only one.
use dlp_server.Base.{
  ℕ, zero, suc, ◌-◌, Bool, true, false, ◌&&◌, ◌||◌, Option, none, some, [], ◌∷◌, ◌++◌,
  if◌then◌else◌, leb, ◌==◌, length,
}
use dlp_server.Base.Str.{Str, str, truthy}
use dlp_server.Base.Unicode.{Unicode}
use dlp_server.Vault.Rows.{Db}
use dlp_server.Vault.Crypto.{External}
use dlp_server.Vault.Detokenize.{detokenize}

-- what a prefix leaves
unfoldable pub strip_prefix : Str → Str → Option Str
strip_prefix [] s = some s
strip_prefix (c ∷ p) [] = none
strip_prefix (c ∷ p) (d ∷ s) = let rest = strip_prefix p s in if c == d then rest else none

-- the longest prefix whose characters pass, and the rest
unfoldable pub span_while : (ℕ → Bool) → Str → Str × Str
span_while p [] = ([], [])
span_while p (c ∷ s) = let (a, b) = span_while p s in if p c then (c ∷ a, b) else ([], c ∷ s)

-- [A-Z_]
abbrev pub is_type_char : ℕ → Bool
is_type_char c = (leb b'A' c && leb c b'Z') || c == b'_'

abbrev pub head_is : ℕ → Str → Option Str
head_is c [] = none
head_is c (d ∷ s) = if d == c then some s else none

module _ ⦃u : Unicode⦄ where
  -- \d
  abbrev pub is_decimal : ℕ → Bool
  is_decimal c = elim (u.decimal c) [ none ↦ false | some d ↦ true ]

  -- ":" \d+ ">" behind the type: the digits, if it matches
  unfoldable pub match_number : Str → Option Str
  match_number s = elim (head_is b':' s) [
    | none ↦ none
    | some t ↦
        let (digits, rest) = span_while is_decimal t in
        if truthy digits
        then (elim (head_is b'>' rest) [ none ↦ none | some z ↦ some digits ])
        else none
  ]

  -- the type and the number of the label that begins the text
  unfoldable pub match_label : Str → Option (Str × Str)
  match_label s = elim (strip_prefix (str "<PII:") s) [
    | none ↦ none
    | some t ↦
        let (etype, rest) = span_while is_type_char t in
        if truthy etype
        then (elim (match_number rest) [ none ↦ none | some digits ↦ some (etype, digits) ])
        else none
  ]

abbrev pub matched : Str × Str → Str
matched (etype, digits) = str "<PII:" ++ (etype ++ (b':' ∷ (digits ++ str ">")))

abbrev pub or_label : Option Str → Str → Str
or_label none label = label
or_label (some value) label = value

module _ (ext : External) ⦃u : Unicode⦄ (up : Bool) (now : ℕ) (session_id : Str)
    (role purpose : Option Str) where
  -- `_replace`
  unfoldable pub replace : Str → Db → Str × Db
  replace label db =
      let (value, db') = detokenize ext up now session_id label role purpose db in
      (or_label value label, db')

  -- `TOKEN_LABEL_RE.sub(_replace, text)`: the first argument counts the characters of the last
  -- match that are still to be passed over.
  unfoldable pub sub_labels : ℕ → Str → Db → Str × Db
  sub_labels skip [] db = ([], db)
  sub_labels (suc skip) (c ∷ s) db = sub_labels skip s db
  sub_labels zero (c ∷ s) db = elim (match_label (c ∷ s)) [
    | none ↦ (c ∷ (sub_labels zero s db).0, (sub_labels zero s db).1)
    | some m ↦
        let (value, db') = replace (matched m) db in
        let (rest, db'') = sub_labels (length (matched m) - 1) s db' in (value ++ rest, db'')
  ]

  unfoldable pub detokenize_text : Str → Db → Str × Db
  detokenize_text text db = sub_labels 0 text db
