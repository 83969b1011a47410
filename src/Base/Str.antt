-- ===== src/Base/Str.antt =====
-- Python's `str`: a list of code points.
use Prim.Native.Nat.{ℕ}
use Prim.Native.Char.{code}
use Prim.Native.String.{String}
use mathlib.Core.Path.{◌≡◌, refl}
use mathlib.Core.Logic.{◌↔◌}
use mathlib.Core.Bool.{Bool, true, false, ◌&&◌}
use mathlib.Core.Option.{Option, none, some}
use mathlib.Core.List.{List, [], ◌∷◌, ◌++◌}
use native.Mathlib.Omega.{arith}
use dlp_server.Base.Tests.{◌==◌, if◌then◌else◌}

abbrev pub Str : Type 0
Str = List ℕ

-- a literal
abbrev pub str : String → Str
str String.[] = []
str (String.◌∷◌ c s) = code c ∷ str s

-- s == t
unfoldable pub eq : Str → Str → Bool
eq [] [] = true
eq [] (d ∷ t) = false
eq (c ∷ s) [] = false
eq (c ∷ s) (d ∷ t) = (c == d) && eq s t

pub eq_refl : (s : Str) → eq s s ≡ true
unfolding eq
eq_refl [] = refl
eq_refl (c ∷ s) = ground (arith, eq_refl s)

pub eq_sound : (s t : Str) → eq s t ≡ true → s ≡ t
unfolding eq
eq_sound [] [] h = refl
eq_sound [] (d ∷ t) h = cc
eq_sound (c ∷ s) [] h = cc
eq_sound (c ∷ s) (d ∷ t) h = ground (arith, eq_sound s t)

pub eq_iff : (s t : Str) → (eq s t ≡ true) ↔ (s ≡ t)
eq_iff s t = (eq_sound s t, λ p. rw p (eq_refl t))

-- s == t where s may be None
unfoldable pub eq_opt : Option Str → Option Str → Bool
eq_opt none none = true
eq_opt none (some t) = false
eq_opt (some s) none = false
eq_opt (some s) (some t) = eq s t

-- the truth value of a str
abbrev pub truthy : Str → Bool
truthy [] = false
truthy (c ∷ s) = true

-- s in xs
unfoldable pub contains : List Str → Str → Bool
contains [] s = false
contains (x ∷ xs) s = let rest = contains xs s in if eq x s then true else rest

-- A dict with str keys, in insertion order.
module _ {ℓ} {V : Type ℓ} where
  -- d.get(k)
  unfoldable pub lookup : Str → List (Str × V) → Option V
  lookup k [] = none
  lookup k ((j, v) ∷ d) = let rest = lookup k d in if eq j k then some v else rest

  -- d[k] = v
  unfoldable pub insert : Str → V → List (Str × V) → List (Str × V)
  insert k v [] = (k, v) ∷ []
  insert k v ((j, w) ∷ d) = let rest = insert k v d in if eq j k then (j, v) ∷ d else (j, w) ∷ rest

  -- del d[k], d.pop(k, None)
  unfoldable pub erase : Str → List (Str × V) → List (Str × V)
  erase k [] = []
  erase k ((j, w) ∷ d) = let rest = erase k d in if eq j k then rest else (j, w) ∷ rest

  pub lookup-insert :
      (k j : Str) (v : V) (d : List (Str × V))
      → lookup j (insert k v d) ≡ (if eq k j then some v else lookup j d)
  unfolding lookup insert
  lookup-insert k j v [] = ground arith
  lookup-insert k j v ((i, w) ∷ d) =
      ground (arith, eq_iff k j, eq_iff i k, eq_iff i j, lookup-insert k j v d)

  pub lookup-erase :
      (k j : Str) (d : List (Str × V))
      → lookup j (erase k d) ≡ (if eq k j then none else lookup j d)
  unfolding lookup erase
  lookup-erase k j [] = ground arith
  lookup-erase k j ((i, w) ∷ d) =
      ground (arith, eq_iff k j, eq_iff i k, eq_iff i j, lookup-erase k j d)

pub ruleset dict_laws = (lookup-insert, lookup-erase)

-- "sep".join(xs)
unfoldable pub join : Str → List Str → Str
join sep [] = []
join sep (x ∷ []) = x
join sep (x ∷ y ∷ xs) = x ++ (sep ++ join sep (y ∷ xs))

join_sources : join (str "+") (str "regex" ∷ str "ner" ∷ []) ≡ str "regex+ner"
unfolding join
join_sources = refl
