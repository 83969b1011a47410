-- ===== src/Detect/TermTests.antt =====
-- The dictionary layer on a file with one term.
use dlp_server.Base.{
  ℕ, suc, ◌+◌, ◌≤◌, ◌≡◌, refl, ap, inl, inr, Option, some, List, [], ◌∷◌, ◌++◌, length,
  length-append, ok, arith,
}
use dlp_server.Base.Str.{Str, str, eq, eq_iff, lookup, insert}
use dlp_server.Base.Unicode.{ascii, strip, lstrip}
use dlp_server.Detect.Dictionary.{
  min_term_length, Payload, split_tabs, Library, add_fields, add_line, add_lines, load_dictionary,
  detect,
}
use dlp_server.Detect.Terms.{FindsAll, term_span, detect-occurrences}

abbrev stored : Payload ℕ
stored = record { type = str "BANK"; confidence = 9; term_length = 2 }

-- a search that knows one word, in texts that are it
abbrev one_word : Library ℕ
one_word = record { parse_float = λ s. ok 9; iter = λ words text. (1, stored) ∷ [] }

-- a comment, a term of one character, a line with two fields and a term
abbrev small_file : Option (List Str)
small_file =
    some (str "# terms" ∷ str "a\tBANK\t0.9" ∷ str "ab\tBANK" ∷ str " ab\tBANK\t0.9\n" ∷ [])

small_file_loaded : load_dictionary one_word small_file ≡ (str "ab", stored) ∷ []
unfolding load_dictionary add_lines add_line add_fields split_tabs insert strip lstrip
    min_term_length eq
small_file_loaded = refl

lookup_ab :
    (term : Str) (p : Payload ℕ)
    → lookup term ((str "ab", stored) ∷ []) ≡ some p
    → (term ≡ str "ab") × (p ≡ stored)
unfolding lookup
lookup_ab term p h = ground (arith, eq_iff (str "ab") term)

at_end :
    (before after : Str) (last : ℕ)
    → str "ab" ≡ before ++ (str "ab" ++ after)
    → length before + 2 ≡ suc last
    → last ≡ 1
at_end before after last e l =
    let n = ap (λ (s : Str). length s) e in
    omega (arith, l, n, length-append before (str "ab" ++ after))

one_word-FindsAll : FindsAll one_word ((str "ab", stored) ∷ []) (str "ab")
unfolding lookup eq
one_word-FindsAll last p = (
  λ m. elim m [
    | inl q ↦ (
      str "ab",
      cc (ap (λ (x : ℕ × Payload ℕ). x.1) q),
      ([], [], refl, cc (ap (λ (x : ℕ × Payload ℕ). x.0) q)),
    )
    | inr n ↦ absurd n.1
  ],
  λ w.
      let (term, found, (before, after, t, l)) = w in
      let (q, r) = lookup_ab term p found in
      let one : last ≡ 1 = at_end before after last (rw q at t) (rw q at l) in inl (cc (one, r)),
)

detect-occurrences_example :
    (term before after : Str) × (p : Payload ℕ) × (lookup term (load_dictionary one_word small_file)
      ≡ some p)
    × (2 ≤ length term)
    × (str "ab" ≡ before ++ (term ++ after))
    × (term_span (str "ab") stored 0 ≡ term_span term p (length before))
unfolding detect load_dictionary add_lines add_line add_fields split_tabs insert strip lstrip
    min_term_length eq
detect-occurrences_example =
    (detect-occurrences one_word small_file (str "ab") (term_span (str "ab") stored 0)
        one_word-FindsAll).0
      (inl refl)
