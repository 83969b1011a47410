-- ===== src/Base/Unicode.antt =====
-- What the program asks of Python's Unicode database about a code point. The tables are Python's,
-- so they are a parameter; `ascii` is the part that the examples use.
use Prim.Native.Nat.{ℕ, ◌+◌, ◌-◌}
use mathlib.Core.Bool.{Bool, ◌&&◌, ◌||◌}
use mathlib.Core.Option.{Option, none, some}
use mathlib.Core.List.{[], ◌∷◌, ◌++◌, reverse}
use dlp_server.Base.Tests.{leb, ◌==◌, if◌then◌else◌}
use dlp_server.Base.Str.{Str}

pub record Unicode : Type 0 where
  -- str.isspace, and \s of a pattern
  pub is_space : ℕ → Bool
  -- str.isdigit
  pub is_digit : ℕ → Bool
  -- \d of a pattern, with the value that int() reads
  pub decimal : ℕ → Option ℕ
  pub upper : ℕ → Str
  pub lower : ℕ → Str

module _ ⦃u : Unicode⦄ where
  -- s.lstrip()
  unfoldable pub lstrip : Str → Str
  lstrip [] = []
  lstrip (c ∷ s) = let rest = lstrip s in if u.is_space c then rest else c ∷ s

  -- s.strip()
  unfoldable pub strip : Str → Str
  strip s = reverse (lstrip (reverse (lstrip s)))

  -- s.upper() and s.lower()
  unfoldable pub upper : Str → Str
  upper [] = []
  upper (c ∷ s) = u.upper c ++ upper s

  unfoldable pub lower : Str → Str
  lower [] = []
  lower (c ∷ s) = u.lower c ++ lower s

abbrev ascii_digit : ℕ → Bool
ascii_digit c = leb b'0' c && leb c b'9'

instance abbrev pub ascii : Unicode
ascii = record {
  is_space = λ c. c == 32 || (leb 9 c && leb c 13);
  is_digit = ascii_digit;
  decimal = λ c. if ascii_digit c then some (c - 48) else none;
  upper = λ c. (if leb 97 c && leb c 122 then c - 32 else c) ∷ [];
  lower = λ c. (if leb 65 c && leb c 90 then c + 32 else c) ∷ [];
}
