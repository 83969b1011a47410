-- ===== src/Transform/Generalize.antt =====
-- `_generalize`, `_append_aggregate_summary` and `_synthetic` of apply.py.
use dlp_server.Base.{
  ℕ, zero, suc, ◌+◌, ◌-◌, ◌*◌, ◌/◌, ◌%◌, true, false, not, Option, none, some, List, [], ◌∷◌, ◌++◌,
  if◌then◌else◌, ◌==◌, length, take, drop, any,
}
use mathlib.Core.List.{reverse}
use dlp_server.Base.Str.{Str, str, eq}
use dlp_server.Base.Float.{Float}
use dlp_server.Base.Unicode.{Unicode, lstrip}
use dlp_server.Models.{Span}
use dlp_server.Vault.Label.{print_nat}
use dlp_server.Transform.Mask.{only_digits, mask}

-- _GENDER_DIGIT_CENTURY.get(digit)
unfoldable pub century_sex : ℕ → Option (ℕ × Str)
century_sex d =
    if d == b'1'
    then some (1900, str "남")
    else if d == b'2'
    then some (1900, str "여")
    else if d == b'3'
    then some (2000, str "남")
    else if d == b'4'
    then some (2000, str "여")
    else if d == b'5'
    then some (1800, str "남")
    else if d == b'6'
    then some (1800, str "여")
    else none

abbrev pub head_or_zero : Str → ℕ
head_or_zero [] = 0
head_or_zero (c ∷ s) = c

abbrev pub value_of : Option ℕ → ℕ
value_of none = 0
value_of (some d) = d

module _ ⦃u : Unicode⦄ where
  -- int(digits), of decimals
  unfoldable pub int_of : ℕ → Str → ℕ
  int_of acc [] = acc
  int_of acc (c ∷ s) = int_of (acc * 10 + value_of (u.decimal c)) s

  -- `_generalize_rrn` in the year that the clock shows. An age below 0 has the bracket 0, which is
  -- what max(…, 0) gives and what `-` on ℕ gives.
  unfoldable pub generalize_rrn : ℕ → Str → Option Str
  generalize_rrn year value =
      let digits = only_digits value in
      if not (length digits == 13)
      then none
      else elim (century_sex (head_or_zero (drop 6 digits))) [
        | none ↦ none
        | some (century, sex) ↦
            let age = year - (century + int_of 0 (take 2 digits)) in
            some (str "<AGE:" ++ (print_nat (age / 10 * 10) ++ (str "대><SEX:" ++ (sex ++ str ">"))))
      ]

  abbrev pub or_mask : Str → Str → Option Str → Str
  or_mask type value none = mask type value
  or_mask type value (some s) = s

  -- `_generalize`
  unfoldable pub generalize : ℕ → Str → Str → Str
  generalize year type value =
      or_mask type value (if eq type (str "RRN") then generalize_rrn year value else none)

  -- str(random.randint(0, 9)) for each digit; `draw k` is the k-th draw
  unfoldable pub redraw : (ℕ → ℕ) → ℕ → Str → Str × ℕ
  redraw draw k [] = ([], k)
  redraw draw k (c ∷ s) = elim (u.is_digit c) [
    | true ↦ let (t, k') = redraw draw (suc k) s in (print_nat (draw k % 10) ++ t, k')
    | false ↦ let (t, k') = redraw draw k s in (c ∷ t, k')
  ]

-- _FAKE_NAMES
unfoldable pub fake_names : List Str
fake_names =
    str "김도윤"
    ∷ str "이하은"
    ∷ str "박서준"
    ∷ str "최지우"
    ∷ str "정민재"
    ∷ str "한소율"
    ∷ str "윤지호"
    ∷ str "임서아"
    ∷ []

abbrev pub get_or : Str → List Str → ℕ → Str
get_or z [] i = z
get_or z (x ∷ xs) zero = x
get_or z (x ∷ xs) (suc i) = get_or z xs i

module _ ⦃u : Unicode⦄ where
  -- `_synthetic`, with the number of the next draw
  unfoldable pub synthetic : (ℕ → ℕ) → ℕ → Str → Str → Str × ℕ
  synthetic draw k type value =
      if eq type (str "NAME")
      then (get_or [] fake_names (draw k % length fake_names), suc k)
      else if not (any u.is_digit value)
      then (mask type value, k)
      else redraw draw k value

-- What the aggregate asks of the floats: float(s), which may raise, a division and the format
-- of {x:,.0f}.
pub record Amounts (F : Type 0) : Type 0 where
  pub parse_float : Str → Option F
  pub divide : F → F → F
  pub grouped : F → Str

module _ {F : Type 0} ⦃fl : Float F⦄ ⦃u : Unicode⦄ (am : Amounts F) where
  -- [^\d.] is removed
  abbrev pub amount_chars : Str → Str
  amount_chars [] = []
  amount_chars (c ∷ s) =
      let rest = amount_chars s in
      elim (u.decimal c) [ some d ↦ c ∷ rest | none ↦ if c == b'.' then c ∷ rest else rest ]

  -- `_parse_amount`
  unfoldable pub parse_amount : Str → Option F
  parse_amount value = elim (amount_chars value) [ [] ↦ none | c ∷ s ↦ am.parse_float (c ∷ s) ]

  unfoldable pub amounts_of : List (Span F) → List F
  amounts_of [] = []
  amounts_of (s ∷ rest) = elim (parse_amount s.value) [
    | none ↦ amounts_of rest
    | some a ↦ a ∷ amounts_of rest
  ]

  -- sum(amounts), which begins at 0
  unfoldable pub sum_from : F → List F → F
  sum_from acc [] = acc
  sum_from acc (a ∷ rest) = sum_from (fl.add acc a) rest

  -- text.rstrip()
  unfoldable pub rstrip : Str → Str
  rstrip text = reverse (lstrip (reverse text))

  -- `_append_aggregate_summary`
  unfoldable pub append_aggregate_summary : Str → List (Span F) → Str
  append_aggregate_summary text spans = elim (amounts_of spans) [
    | [] ↦ text
    | a ∷ rest ↦
        let n = length (a ∷ rest) in
        let total = sum_from (fl.lit 0 0) (a ∷ rest) in
        rstrip text
        ++ (str " [집계: 합계 "
            ++ (am.grouped total
                ++ (str " / 평균 "
                    ++ (am.grouped (am.divide total (fl.lit n 0))
                        ++ (str " / 건수 " ++ (print_nat n ++ str "]"))))))
  ]
