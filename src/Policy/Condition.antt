-- ===== src/Policy/Condition.antt =====
-- `eval_condition` of app/policy/engine.py and the pattern
-- risk_score\s*>=\s*(0(?:\.\d+)?|1(?:\.0+)?), which is matched in full.
use dlp_server.Base.{
  ℕ, suc, ◌+◌, ◌*◌, Bool, false, Option, none, some, [], ◌∷◌, if◌then◌else◌, ◌==◌,
}
use dlp_server.Base.Str.{Str, str, eq}
use dlp_server.Base.Float.{Float}
use dlp_server.Base.Unicode.{Unicode, lstrip, strip}

-- the rest of the text behind a prefix
unfoldable pub after : Str → Str → Option Str
after [] s = some s
after (c ∷ p) [] = none
after (c ∷ p) (d ∷ s) = let rest = after p s in if c == d then rest else none

-- a number m / 10 ^ k
abbrev pub Decimal : Type 0
Decimal = ℕ × ℕ

module _ ⦃u : Unicode⦄ where
  -- \d+ to the end, on top of the digits read so far
  unfoldable pub fraction : ℕ → ℕ → Str → Option Decimal
  fraction m k [] = some (m, k)
  fraction m k (c ∷ s) = elim (u.decimal c) [
    | none ↦ none
    | some d ↦ fraction (m * 10 + d) (suc k) s
  ]

-- 0+ to the end
unfoldable pub zeros : ℕ → Str → Option ℕ
zeros k [] = some k
zeros k (c ∷ s) = let rest = zeros (suc k) s in if c == b'0' then rest else none

module _ ⦃u : Unicode⦄ where
  -- 0(?:\.\d+)?
  unfoldable pub zero_point : Str → Option Decimal
  zero_point [] = some (0, 0)
  zero_point (c ∷ []) = none
  zero_point (c ∷ d ∷ s) = if c == b'.' then fraction 0 0 (d ∷ s) else none

  -- 1(?:\.0+)?
  unfoldable pub one_point : Str → Option Decimal
  one_point [] = some (1, 0)
  one_point (c ∷ []) = none
  one_point (c ∷ d ∷ s) =
      if c == b'.' then (elim (zeros 0 (d ∷ s)) [ none ↦ none | some k ↦ some (1, 0) ]) else none

  unfoldable pub threshold : Str → Option Decimal
  threshold [] = none
  threshold (c ∷ s) = if c == b'0' then zero_point s else (if c == b'1' then one_point s else none)

  -- `_RISK_SCORE_RE.fullmatch(expr)`
  unfoldable pub parse_risk : Str → Option Decimal
  parse_risk expr = elim (after (str "risk_score") expr) [
    | none ↦ none
    | some s ↦ elim (after (str ">=") (lstrip s)) [ none ↦ none | some t ↦ threshold (lstrip t) ]
  ]

module _ {F : Type 0} ⦃fl : Float F⦄ ⦃u : Unicode⦄ where
  abbrev pub above : F → Option Decimal → Bool
  above risk_score none = false
  above risk_score (some (m, k)) = fl.le (fl.lit m k) risk_score

  -- `eval_condition`; an expression that is neither form is false
  unfoldable pub eval_condition : Str → F → Bool → Bool
  eval_condition expr risk_score injection_hit =
      let e = strip expr in
      if eq e (str "injection.hit") then injection_hit else above risk_score (parse_risk e)
