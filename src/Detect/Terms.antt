-- ===== src/Detect/Terms.antt =====
-- detect/dictionary.py: the spans of a text are the occurrences of the dictionary's terms.
use dlp_server.Base.{
  ℕ, suc, ◌+◌, ◌-◌, ◌≤◌, ◌==◌, ltb, ◌≡◌, refl, sym, ap, subst, ◌∙◌, ◌↔◌, inl, inr, Option, none,
  some, List, [], ◌∷◌, ◌++◌, map, length, slice, Result, ok, raised, Member, Member-map, if_cases,
  ltb_false→le, take-append, drop-append, arith, Bool-cases,
}
use dlp_server.Base.Str.{Str, str, eq, eq_iff, lookup, insert, lookup-insert}
use dlp_server.Base.Members.{Member-map_inv}
use dlp_server.Base.Unicode.{Unicode, strip}
use dlp_server.Models.{Span}
use dlp_server.Detect.Dictionary.{
  min_term_length, Payload, Words, split_tabs, Library, add_word, add_fields, add_line, add_lines,
  load_dictionary, span_of, detect,
}

-- `term` stands in the text and its last character is that at `last`.
abbrev pub EndsAt : Str → Str → ℕ → Type 0
EndsAt term text last =
    (before : Str) × (after : Str) × (text ≡ before ++ (term ++ after))
    × (length before + length term ≡ suc last)

-- what the documentation of the library says of `iter`: every occurrence of every word
abbrev pub FindsAll : {F : Type 0} → Library F → Words F → Str → Type 0
FindsAll {F} lib words text =
    (last : ℕ) (p : Payload F)
    → Member (last, p) (lib.iter words text)
      ↔ ((term : Str) × (lookup term words ≡ some p) × EndsAt term text last)

-- The payload of each word has its length, which is at least 2.
abbrev pub HasLengths : {F : Type 0} → Words F → Type 0
HasLengths {F} words =
    (term : Str) (p : Payload F)
    → lookup term words ≡ some p
    → (p.term_length ≡ length term) × (2 ≤ length term)

module _ {F : Type 0} (lib : Library F) where
  insert-HasLengths :
      (term : Str) (p : Payload F) (words : Words F)
      → HasLengths words
      → p.term_length ≡ length term
      → 2 ≤ length term
      → HasLengths (insert term p words)
  insert-HasLengths term p words h e l t q k = elim (Bool-cases (eq term t)) [
    | inl same ↦
        let path : term ≡ t = (eq_iff term t).0 same in
        let pq : p ≡ q = ground (arith, lookup-insert term t p words) in
        subst (λ (s : Str). (q.term_length ≡ length s) × (2 ≤ length s)) path
          (subst (λ (r : Payload F). (r.term_length ≡ length term) × (2 ≤ length term)) pq (e, l))
    | inr other ↦ h t q (ground (arith, lookup-insert term t p words))
  ]

  add_word-HasLengths :
      (term type : Str) (confidence : Result F) (words : Words F)
      → HasLengths words
      → 2 ≤ length term
      → HasLengths (add_word term type confidence words)
  add_word-HasLengths term type raised words h l = h
  add_word-HasLengths term type (ok f) words h l =
      insert-HasLengths term (record { type = type; confidence = f; term_length = length term })
        words h refl l

  add_fields-HasLengths :
      (fields : List Str) (words : Words F)
      → HasLengths words
      → HasLengths (add_fields lib fields words)
  unfolding add_fields min_term_length
  add_fields-HasLengths [] words h = h
  add_fields-HasLengths (a ∷ []) words h = h
  add_fields-HasLengths (a ∷ b ∷ []) words h = h
  add_fields-HasLengths (term ∷ type ∷ confidence ∷ []) words h =
      if_cases (λ (w : Words F). HasLengths w) (ltb (length term) min_term_length) (λ _. h)
        (λ f.
          add_word-HasLengths term type (lib.parse_float confidence) words h (ltb_false→le _ _ f))
  add_fields-HasLengths (a ∷ b ∷ c ∷ d ∷ rest) words h = h

  add_line-HasLengths :
      (line : Str) (words : Words F) → HasLengths words → HasLengths (add_line lib line words)
  unfolding add_line
  add_line-HasLengths [] words h = h
  add_line-HasLengths (c ∷ rest) words h =
      if_cases (λ (w : Words F). HasLengths w) (c == b'#') (λ _. h)
        (λ _. add_fields-HasLengths (split_tabs (c ∷ rest)) words h)

  module _ ⦃u : Unicode⦄ where
    add_lines-HasLengths :
        (lines : List Str) (words : Words F)
        → HasLengths words
        → HasLengths (add_lines lib lines words)
    unfolding add_lines
    add_lines-HasLengths [] words h = h
    add_lines-HasLengths (l ∷ lines) words h =
        add_lines-HasLengths lines (add_line lib (strip l) words)
          (add_line-HasLengths (strip l) words h)

    load_dictionary-HasLengths : (file : Option (List Str)) → HasLengths (load_dictionary lib file)
    unfolding load_dictionary lookup
    load_dictionary-HasLengths none t p e = absurd (cc e)
    load_dictionary-HasLengths (some lines) t p e =
        add_lines-HasLengths lines [] (λ t' p' e'. absurd (cc e')) t p e

-- the span of a term with what is stored for it
abbrev pub term_span : {F : Type 0} → Str → Payload F → ℕ → Span F
term_span term p start = record {
  type = p.type;
  value = term;
  start = start;
  end = start + length term;
  confidence = p.confidence;
  source = str "dict";
}

slice_middle :
    (before term after : Str)
    → slice (length before) (length before + length term) (before ++ (term ++ after)) ≡ term
slice_middle before term after =
    let n : length before + length term - length before ≡ length term = omega arith in
    rw (drop-append before (term ++ after)) (rw n (take-append term after))

module _ {F : Type 0} (lib : Library F) where
  -- the span that the code makes of an occurrence
  span_of-term :
      (before term after : Str) (p : Payload F) (last : ℕ)
      → p.term_length ≡ length term
      → length before + length term ≡ suc last
      → span_of lib (before ++ (term ++ after)) (last, p) ≡ term_span term p (length before)
  span_of-term before term after p last e l =
      let start : suc last - p.term_length ≡ length before = omega (arith, e, l) in
      rw start (rw (← l) (rw (slice_middle before term after) refl))

  no_word :
      (words : Words F) (term : Str) (p : Payload F) → words ≡ [] → lookup term words ≡ some p → ⊥
  unfolding lookup
  no_word [] term p e h = cc
  no_word (w ∷ words) term p e h = cc

  -- the code's search, with words or without
  detect-Member :
      (words : Words F) (text : Str) (s : Span F)
      → FindsAll lib words text
      → Member s (detect lib words text) ↔ Member s (map (span_of lib text) (lib.iter words text))
  unfolding detect
  detect-Member [] text s law = (
    λ m. absurd m.1,
    λ m.
        let ((last, p), n, q) = Member-map_inv (span_of lib text) s (lib.iter [] text) m in
        let (term, found, there) = (law last p).0 n in absurd (no_word [] term p refl found),
  )
  detect-Member (w ∷ words) text s law = (λ m. m, λ m. m)

  module _ ⦃u : Unicode⦄ where
    -- The dictionary layer finds the terms: with a search that gives every occurrence of a word and
    -- nothing else, a span is among those of a text exactly when it is the span of an occurrence of
    -- a term that the file gives, with the type and the confidence that are stored for the term;
    -- and every such term has at least two characters.
    pub detect-occurrences :
        (file : Option (List Str)) (text : Str) (s : Span F)
        → FindsAll lib (load_dictionary lib file) text
        → Member s (detect lib (load_dictionary lib file) text) ↔ (
            (term before after : Str) × (p : Payload F) × (lookup term (load_dictionary lib file)
              ≡ some p)
            × (2 ≤ length term)
            × (text ≡ before ++ (term ++ after))
            × (s ≡ term_span term p (length before)))
    detect-occurrences file text s law =
        let words = load_dictionary lib file in
        let (f, g) = detect-Member words text s law in
        (
          λ m.
              let ((last, p), n, q) =
                Member-map_inv (span_of lib text) s (lib.iter words text) (f m) in
              let (term, found, (before, after, t, l)) = (law last p).0 n in
              let (e, two) = load_dictionary-HasLengths lib file term p found in
              (
                term,
                before,
                after,
                p,
                found,
                two,
                t,
                q
                    ∙ ap (λ (x : Str). span_of lib x (last, p)) t
                    ∙ span_of-term before term after p last e l,
              ),
          λ w.
              let (term, before, after, p, found, two, t, q) = w in
              let (e, two') = load_dictionary-HasLengths lib file term p found in
              let last : ℕ = length before + length term - 1 in
              let l : length before + length term ≡ suc last = omega (arith, two) in
              let m = (law last p).1 (term, found, (before, after, t, l)) in
              g (
                subst (λ (x : Span F). Member x (map (span_of lib text) (lib.iter words text)))
                  (ap (λ (x : Str). span_of lib x (last, p)) t
                    ∙ span_of-term before term after p last e l
                    ∙ sym q)
                  (Member-map (span_of lib text) (last, p) (lib.iter words text) m)),
        )
