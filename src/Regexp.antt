-- ===== src/Regexp.antt =====
-- Python's `re` as far as the rules of the program use it: search with IGNORECASE. What can follow a
-- match is a list of places, so that an alternative or a shorter repetition is tried where a longer
-- one fails.
pub mod Takes
mod Tests
use dlp_server.Base.{
  ℕ, zero, suc, ◌+◌, leb, ◌==◌, Bool, true, false, ◌&&◌, ◌||◌, not, Option, none, some, List, [],
  ◌∷◌, ◌++◌, any, if◌then◌else◌,
}
use dlp_server.Base.Str.{Str}
use dlp_server.Base.Unicode.{Unicode}

pub data Re : Type 0 where
  nothing : Re
  -- a character, one of several, . and \s and \w
  char : ℕ → Re
  one_of : Str → Re
  dot : Re
  space : Re
  word_char : Re
  -- rs, r|s, r?, \s* and .{0,n}
  seq : Re → Re → Re
  alt : Re → Re → Re
  opt : Re → Re
  spaces : Re
  dots : ℕ → Re
  -- \b, and ^
  boundary : Re
  text_start : Re

abbrev pub seqs : List Re → Re
seqs [] = nothing
seqs (r ∷ []) = r
seqs (r ∷ s ∷ rs) = seq r (seqs (s ∷ rs))

abbrev pub alts : List Re → Re
alts [] = nothing
alts (r ∷ []) = r
alts (r ∷ s ∷ rs) = alt r (alts (s ∷ rs))

-- a literal, and one of several
abbrev pub lit : Str → Re
lit [] = nothing
lit (c ∷ []) = char c
lit (c ∷ d ∷ s) = seq (char c) (lit (d ∷ s))

abbrev pub words : List Str → Re
words [] = nothing
words (s ∷ []) = lit s
words (s ∷ t ∷ ss) = alt (lit s) (words (t ∷ ss))

-- \s+
abbrev pub spaces1 : Re
spaces1 = seq space spaces

-- what `re` takes from its tables: \w, and equality under IGNORECASE
pub record Letters : Type 0 where
  pub is_word : ℕ → Bool
  pub caseless : ℕ → ℕ → Bool

abbrev ascii_letter : ℕ → Bool
ascii_letter c = (leb b'a' c && leb c b'z') || (leb b'A' c && leb c b'Z')

-- the letters of ASCII, an instance for the examples; other code points are equal to themselves
abbrev pub plain_letters : Letters
plain_letters = record {
  is_word = λ c. ascii_letter c || ((leb b'0' c && leb c b'9') || (c == b'_' || leb 128 c));
  caseless = λ c d. c == d || (ascii_letter c && (ascii_letter d && (c + 32 == d || d + 32 == c)));
}

-- a place in a text: the character before it, and the rest
abbrev pub Place : Type 0
Place = Option ℕ × Str

unfoldable pub one : (ℕ → Bool) → Place → List Place
one test (before, []) = []
one test (before, c ∷ s) = if test c then (some c, s) ∷ [] else []

unfoldable pub after_spaces : (ℕ → Bool) → Option ℕ → Str → List Place
after_spaces is_space before [] = (before, []) ∷ []
after_spaces is_space before (c ∷ s) =
    let more = after_spaces is_space (some c) s in
    (before, c ∷ s) ∷ (if is_space c then more else [])

unfoldable pub after_dots : ℕ → Option ℕ → Str → List Place
after_dots zero before s = (before, s) ∷ []
after_dots (suc n) before [] = (before, []) ∷ []
after_dots (suc n) before (c ∷ s) =
    let more = after_dots n (some c) s in (before, c ∷ s) ∷ (if c == 10 then [] else more)

unfoldable pub from_all : (Place → List Place) → List Place → List Place
from_all f [] = []
from_all f (p ∷ ps) = f p ++ from_all f ps

abbrev pub is_some_word : (ℕ → Bool) → Option ℕ → Bool
is_some_word is_word none = false
is_some_word is_word (some c) = is_word c

abbrev pub head : Str → Option ℕ
head [] = none
head (c ∷ s) = some c

abbrev pub differ : Bool → Bool → Bool
differ true b = not b
differ false b = b

abbrev pub is_match : List Place → Bool
is_match [] = false
is_match (p ∷ ps) = true

module _ ⦃u : Unicode⦄ (l : Letters) where
  unfoldable pub matches : Re → Place → List Place
  matches nothing p = p ∷ []
  matches (char c) p = one (l.caseless c) p
  matches (one_of cs) p = one (λ d. any (λ c. l.caseless c d) cs) p
  matches dot p = one (λ c. not (c == 10)) p
  matches space p = one u.is_space p
  matches word_char p = one l.is_word p
  matches (seq r s) p = from_all (λ q. matches s q) (matches r p)
  matches (alt r s) p = matches r p ++ matches s p
  matches (opt r) p = p ∷ matches r p
  matches spaces p = after_spaces u.is_space p.0 p.1
  matches (dots n) p = after_dots n p.0 p.1
  matches boundary p =
      if differ (is_some_word l.is_word p.0) (is_some_word l.is_word (head p.1)) then p ∷ [] else []
  matches text_start p = elim p.0 [ none ↦ p ∷ [] | some c ↦ [] ]

  -- pattern.search(text) is not None, from a place on
  unfoldable pub search_from : Re → Option ℕ → Str → Bool
  search_from r before [] = is_match (matches r (before, []))
  search_from r before (c ∷ s) =
      let later = search_from r (some c) s in
      if is_match (matches r (before, c ∷ s)) then true else later

  unfoldable pub searches : Re → Str → Bool
  searches r text = search_from r none text
