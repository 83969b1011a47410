-- ===== src/Base/Float.antt =====
-- Python's floats, as what the program does with them. Their arithmetic is the machine's, so it
-- is a parameter; `IsOrdered` has the laws of the order, which finite floats satisfy.
use Prim.Native.Nat.{ℕ, ◌+◌, ◌-◌, ◌*◌, ◌/◌, ◌^◌}
use mathlib.Core.Path.{◌≡◌}
use mathlib.Core.Bool.{Bool, true, not}
use native.Mathlib.Omega.{arith}
use dlp_server.Base.Tests.{ltb, leb, if◌then◌else◌}

pub record Float (F : Type 0) : Type 0 where
  -- the literal m / 10 ^ k, such as `lit 65 2` for 0.65
  pub lit : ℕ → ℕ → F
  pub add : F → F → F
  pub sub : F → F → F
  pub mul : F → F → F
  -- a <= b
  pub le : F → F → Bool
  -- a < b
  pub lt : F → F → Bool

pub record IsOrdered (F : Type 0) (fl : Float F) : Type 0 where
  pub total : (a b : F) → fl.lt a b ≡ not (fl.le b a)
  pub le_refl : (a : F) → fl.le a a ≡ true
  pub le_trans : (a b c : F) → fl.le a b ≡ true → fl.le b c ≡ true → fl.le a c ≡ true
  pub le_of_lt : (a b : F) → fl.lt a b ≡ true → fl.le a b ≡ true

module _ {F : Type 0} ⦃fl : Float F⦄ where
  -- min(a, b): the first unless the second is smaller
  abbrev pub min_of : F → F → F
  min_of a b = if fl.lt b a then b else a

-- Fixed point with six decimals, an instance for the examples.
instance abbrev pub fixed : Float ℕ
fixed = record {
  lit = λ m k. m * 10 ^ (6 - k);
  add = λ a b. a + b;
  sub = λ a b. a - b;
  mul = λ a b. a * b / 10 ^ 6;
  le = leb;
  lt = ltb;
}

pub fixed-IsOrdered : IsOrdered ℕ fixed
fixed-IsOrdered = record {
  total = λ a b. ground arith;
  le_refl = λ a. ground arith;
  le_trans = λ a b c h k. ground arith;
  le_of_lt = λ a b h. ground arith;
}
