-- ===== src/Transform/Mask.antt =====
-- `_mask` of app/transform/apply.py and its rules by type.
use dlp_server.Base.{
  ℕ, zero, suc, ◌-◌, Bool, true, false, ◌||◌, not, Option, none, some, List, [], ◌∷◌, ◌++◌,
  if◌then◌else◌, leb, ◌==◌, length, take, drop, filter,
}
use dlp_server.Base.Str.{Str, str, eq}
use dlp_server.Base.Unicode.{Unicode}
use dlp_server.Models.{Span}

abbrev pub star : ℕ
star = b'*'

-- "*" * n
abbrev pub stars : ℕ → Str
stars zero = []
stars (suc n) = star ∷ stars n

-- value[-1] of a text that begins with `c`
abbrev pub last_of : ℕ → Str → ℕ
last_of c [] = c
last_of c (d ∷ s) = last_of d s

-- `_mask_middle`: value[0] + "*" * (len(value) - 2) + value[-1] from three characters on
unfoldable pub mask_middle : Str → Str
mask_middle [] = []
mask_middle (c ∷ []) = star ∷ []
mask_middle (c ∷ d ∷ []) = c ∷ star ∷ []
mask_middle (c ∷ d ∷ e ∷ s) = c ∷ (stars (suc (length s)) ++ last_of e s ∷ [])

-- `_mask_generic`
unfoldable pub mask_generic : Str → Str
mask_generic = mask_middle

-- value.partition("@"): what stands before the first "@", and behind it
unfoldable pub partition_at : Str → Option (Str × Str)
partition_at [] = none
partition_at (c ∷ s) = elim (c == b'@') [
  | true ↦ some ([], s)
  | false ↦ elim (partition_at s) [ none ↦ none | some (a, b) ↦ some (c ∷ a, b) ]
]

-- `_mask_email`
unfoldable pub mask_email : Str → Str
mask_email value = elim (partition_at value) [
  | none ↦ mask_generic value
  | some (local, domain) ↦ mask_middle local ++ (b'@' ∷ domain)
]

abbrev pub mem : List ℕ → ℕ → Bool
mem [] i = false
mem (j ∷ js) i = let rest = mem js i in if j == i then true else rest

-- positions[-keep:], which is the whole list for 0
abbrev pub last_positions : ℕ → List ℕ → List ℕ
last_positions zero positions = positions
last_positions (suc n) positions = drop (length positions - suc n) positions

module _ ⦃u : Unicode⦄ where
  abbrev pub is_decimal : ℕ → Bool
  is_decimal c = elim (u.decimal c) [ none ↦ false | some d ↦ true ]

  -- re.sub(r"\D", "", value)
  unfoldable pub only_digits : Str → Str
  only_digits = filter is_decimal

  -- `_mask_rrn`
  unfoldable pub mask_rrn : Str → Str
  mask_rrn value =
      let digits = only_digits value in
      if not (length digits == 13) then mask_generic value else take 6 digits ++ (b'-' ∷ stars 7)

  -- [i for i, c in enumerate(value) if c.isdigit()], from the index i on
  unfoldable pub digit_positions : ℕ → Str → List ℕ
  digit_positions i [] = []
  digit_positions i (c ∷ s) =
      let rest = digit_positions (suc i) s in if u.is_digit c then i ∷ rest else rest

  -- the characters, of which a digit outside the kept positions is hidden
  unfoldable pub hide_digits : List ℕ → ℕ → Str → Str
  hide_digits kept i [] = []
  hide_digits kept i (c ∷ s) =
      (if not (u.is_digit c) || mem kept i then c else star) ∷ hide_digits kept (suc i) s

  -- `_mask_keep_last_digits`
  unfoldable pub mask_keep_last_digits : Str → ℕ → Str
  mask_keep_last_digits value keep =
      let positions = digit_positions 0 value in
      if leb (length positions) keep
      then value
      else hide_digits (last_positions keep positions) 0 value

  -- _MASK_KEEP_LAST_N
  abbrev pub mask_keep_last_n : ℕ
  mask_keep_last_n = 4

  -- `_mask`, on the type and the value of a span
  unfoldable pub mask : Str → Str → Str
  mask type value =
      if eq type (str "RRN")
      then mask_rrn value
      else if eq type (str "CARD") || (eq type (str "PHONE") || eq type (str "ACCOUNT"))
      then mask_keep_last_digits value mask_keep_last_n
      else if eq type (str "EMAIL")
      then mask_email value
      else if eq type (str "NAME")
      then mask_middle value
      else mask_generic value

  -- `mask_preview`
  unfoldable pub mask_preview : {F : Type 0} → Span F → Str
  mask_preview span = mask span.type span.value
