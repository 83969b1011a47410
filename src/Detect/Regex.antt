-- ===== src/Detect/Regex.antt =====
-- app/detect/regex_rules.py: the checksums and the candidates of the regular expressions. The
-- engine of the regular expressions is Python's: what `finditer` yields for each of the six
-- patterns is a parameter. `int` of a character that is no decimal digit raises.
use mathlib.Core.List.{reverse}
use dlp_server.Base.{
  ℕ, zero, suc, ◌+◌, ◌-◌, ◌*◌, ◌/◌, ◌%◌, Bool, true, false, ◌&&◌, ◌||◌, not, List, [], ◌∷◌, ◌++◌,
  map, Result, ok, ◌>>=◌, or_raise, if◌then◌else◌, ltb, leb, ◌==◌, length, filter, any,
}
use dlp_server.Base.Str.{Str, str}
use dlp_server.Base.Float.{Float}
use dlp_server.Base.Unicode.{Unicode}
use dlp_server.Models.{Span}

-- a match: m.group(0), m.start(), m.end() and the other groups joined
pub record Match : Type 0 where
  pub value : Str
  pub start : ℕ
  pub end : ℕ
  pub groups : Str

-- `finditer` of each pattern
pub record Patterns : Type 0 where
  pub rrn : Str → List Match
  pub card : Str → List Match
  pub bizno : Str → List Match
  pub phone : Str → List Match
  pub email : Str → List Match
  pub account : Str → List Match

module _ ⦃u : Unicode⦄ where
  -- digits.isdigit()
  unfoldable pub all_digits : Str → Bool
  all_digits [] = true
  all_digits (c ∷ s) = u.is_digit c && all_digits s

  -- [int(d) for d in digits]
  unfoldable pub int_digits : Str → Result (List ℕ)
  int_digits [] = ok []
  int_digits (c ∷ s) = or_raise (u.decimal c) >>= λ d. int_digits s >>= λ ds. ok (d ∷ ds)

-- sum(d * w for d, w in zip(ds, weights)), over the digits that have a weight
unfoldable pub weighted : List ℕ → List ℕ → ℕ
weighted [] weights = 0
weighted (d ∷ ds) [] = 0
weighted (d ∷ ds) (w ∷ weights) = d * w + weighted ds weights

-- digits[i] as an int
unfoldable pub digit_at : ℕ → List ℕ → ℕ
digit_at i [] = 0
digit_at zero (d ∷ ds) = d
digit_at (suc i) (d ∷ ds) = digit_at i ds

unfoldable pub rrn_weights : List ℕ
rrn_weights = 2 ∷ 3 ∷ 4 ∷ 5 ∷ 6 ∷ 7 ∷ 8 ∷ 9 ∷ 2 ∷ 3 ∷ 4 ∷ 5 ∷ []

unfoldable pub bizno_weights : List ℕ
bizno_weights = 1 ∷ 3 ∷ 7 ∷ 1 ∷ 3 ∷ 7 ∷ 1 ∷ 3 ∷ 5 ∷ []

-- the checks, on the digits; 11 - total % 11 and 10 - total % 10 are above 0
unfoldable pub rrn_check : List ℕ → Bool
rrn_check ds = (11 - weighted ds rrn_weights % 11) % 10 == digit_at 12 ds

unfoldable pub bizno_check : List ℕ → Bool
bizno_check ds =
    (10 - (weighted ds bizno_weights + digit_at 8 ds * 5 / 10) % 10) % 10 == digit_at 9 ds

-- n for an even place, else n * 2, less 9 where that is above 9
unfoldable pub luhn_value : ℕ → ℕ → ℕ
luhn_value i n = if i % 2 == 1 then (if ltb 9 (n * 2) then n * 2 - 9 else n * 2) else n

-- the loop of `_verify_luhn` over the digits from the right
unfoldable pub luhn_total : ℕ → List ℕ → ℕ
luhn_total i [] = 0
luhn_total i (n ∷ ns) = luhn_value i n + luhn_total (suc i) ns

unfoldable pub luhn_check : List ℕ → Bool
luhn_check ds = luhn_total 0 (reverse ds) % 10 == 0

module _ ⦃u : Unicode⦄ where
  -- `_verify_rrn_checksum`
  unfoldable pub verify_rrn_checksum : Str → Result Bool
  verify_rrn_checksum digits =
      if not (length digits == 13) || not (all_digits digits)
      then ok false
      else int_digits digits >>= λ ds. ok (rrn_check ds)

  -- `_verify_luhn`
  unfoldable pub verify_luhn : Str → Result Bool
  verify_luhn digits =
      if not (all_digits digits) || not (leb 13 (length digits) && leb (length digits) 19)
      then ok false
      else int_digits digits >>= λ ds. ok (luhn_check ds)

  -- `_verify_bizno_checksum`
  unfoldable pub verify_bizno_checksum : Str → Result Bool
  verify_bizno_checksum digits =
      if not (length digits == 10) || not (all_digits digits)
      then ok false
      else int_digits digits >>= λ ds. ok (bizno_check ds)

-- re.sub(r"[ -]", "", raw)
unfoldable pub without_separators : Str → Str
without_separators = filter (λ c. not (c == b' ' || c == b'-'))

module _ {F : Type 0} ⦃fl : Float F⦄ where
  -- a span of a match
  unfoldable pub span_of : Str → F → Match → Span F
  span_of type confidence m = record {
    type = type;
    value = m.value;
    start = m.start;
    end = m.end;
    confidence = confidence;
    source = str "regex";
  }

  -- _CHECKSUM_PASS_CONFIDENCE and _CHECKSUM_FAIL_CONFIDENCE
  unfoldable pub checksum_confidence : Bool → F
  checksum_confidence passed = if passed then fl.lit 97 2 else fl.lit 4 1

  -- the loops of `_detect_rrn`, `_detect_card` and `_detect_bizno`
  unfoldable pub detect_checked :
      Str → (Str → Result Bool) → (Match → Str) → List Match → Result (List (Span F))
  detect_checked type verify digits [] = ok []
  detect_checked type verify digits (m ∷ rest) = verify (digits m) >>= λ passed.
      detect_checked type verify digits rest >>= λ spans.
      ok (span_of type (checksum_confidence passed) m ∷ spans)

  -- `_detect_phone`, `_detect_email` and `_detect_account`
  unfoldable pub detect_plain : Str → F → List Match → List (Span F)
  detect_plain type confidence ms = map (span_of type confidence) ms

module _ {F : Type 0} where
  -- `_spans_overlap`
  unfoldable pub spans_overlap : Span F → Span F → Bool
  spans_overlap a b = ltb a.start b.end && ltb b.start a.end

  -- the account candidates that overlap no card or phone
  unfoldable pub drop_overlapping : List (Span F) → List (Span F) → List (Span F)
  drop_overlapping higher_priority accounts =
      filter (λ s. not (any (spans_overlap s) higher_priority)) accounts

module _ {F : Type 0} ⦃fl : Float F⦄ ⦃u : Unicode⦄ where
  -- the lists that `detect` adds up, once the checksums are done
  unfoldable pub all_spans :
      Patterns → Str → List (Span F) → List (Span F) → List (Span F) → List (Span F)
  all_spans ps text rrns cards biznos =
      let phones = detect_plain (str "PHONE") (fl.lit 65 2) (ps.phone text) in
      let accounts = detect_plain (str "ACCOUNT") (fl.lit 65 2) (ps.account text) in
      rrns
      ++ (cards
          ++ (biznos
              ++ (phones
                  ++ (detect_plain (str "EMAIL") (fl.lit 9 1) (ps.email text)
                      ++ drop_overlapping (cards ++ phones) accounts))))

  unfoldable pub detect : Patterns → Str → Result (List (Span F))
  detect ps text =
      detect_checked (str "RRN") verify_rrn_checksum (λ m. m.groups) (ps.rrn text) >>= λ rrns.
      detect_checked (str "CARD") verify_luhn (λ m. without_separators m.value) (ps.card text)
      >>= λ cards.
          detect_checked (str "BIZNO") verify_bizno_checksum (λ m. m.groups) (ps.bizno text)
          >>= λ biznos. ok (all_spans ps text rrns cards biznos)
