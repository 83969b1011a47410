-- ===== src/Base/Outcome.antt =====
-- A Python call returns or raises. Every handler of the program catches `Exception`, so which
-- exception it was is not kept.
use mathlib.Core.Path.{◌≡◌, refl}
use mathlib.Core.Logic.{◌⊎◌, inl, inr}
use mathlib.Core.Option.{Option, none, some}

pub data Result {ℓ} (A : Type ℓ) : Type ℓ where
  ok : A → Result A
  raised : Result A

infixl 5 ◌>>=◌
abbrev pub ◌>>=◌ {ℓ κ} : {A : Type ℓ} {B : Type κ} → Result A → (A → Result B) → Result B
ok a >>= f = f a
raised >>= f = raised

-- `try: return m` with a handler that returns `a`
abbrev pub rescue {ℓ} : {A : Type ℓ} → Result A → A → A
rescue (ok x) a = x
rescue raised a = a

-- a value that the code takes for granted; without it the code raises
abbrev pub or_raise {ℓ} : {A : Type ℓ} → Option A → Result A
or_raise none = raised
or_raise (some a) = ok a

pub Result-cases {ℓ} : {A : Type ℓ} (r : Result A) → ((a : A) × (r ≡ ok a)) ⊎ (r ≡ raised)
Result-cases (ok a) = inl (a, refl)
Result-cases raised = inr refl

-- When two calls in a row return, so does the first, and the second on what it gave.
pub bind-ok :
    {A B : Type 0} (call : Result A) (later : A → Result B) {answer : B}
    → (call >>= later) ≡ ok answer
    → (given : A) × (call ≡ ok given) × (later given ≡ ok answer)
bind-ok raised later both = cc
bind-ok (ok given) later both = (given, refl, both)
