-- ===== src/Base/Sort.antt =====
-- `sorted(xs, key=…)`, which is stable, for the test `le x y` that x may stand before y.
use Prim.Native.Nat.{suc}
use mathlib.Core.Path.{◌≡◌, refl}
use mathlib.Core.Bool.{Bool, true, false}
use mathlib.Core.List.{List, [], ◌∷◌}
use native.Mathlib.Omega.{arith}
use dlp_server.Base.Tests.{if◌then◌else◌}
use dlp_server.Base.Lists.{All, length}

-- the relation holds between each element and every later one
abbrev pub AllPairs {ℓ} : {A : Type ℓ} → (A → A → Type 0) → List A → Type 0
AllPairs R [] = Unit
AllPairs R (x ∷ xs) = All (R x) xs × AllPairs R xs

module _ {ℓ} {A : Type ℓ} (le : A → A → Bool) where
  unfoldable pub insert : A → List A → List A
  insert x [] = x ∷ []
  insert x (y ∷ ys) = let rest = insert x ys in if le x y then x ∷ y ∷ ys else y ∷ rest

  unfoldable pub sort : List A → List A
  sort [] = []
  sort (x ∷ xs) = insert x (sort xs)

  -- each element may stand before all that follow it
  abbrev pub IsSorted : List A → Type 0
  IsSorted [] = Unit
  IsSorted (x ∷ xs) = All (λ y. le x y ≡ true) xs × IsSorted xs

  pub All-insert {κ} : (P : A → Type κ) (x : A) (xs : List A) → P x → All P xs → All P (insert x xs)
  unfolding insert
  All-insert P x [] p h = (p, h)
  All-insert P x (y ∷ ys) p h = ground (arith, All-insert P x ys p h.1)

  pub All-sort {κ} : (P : A → Type κ) (xs : List A) → All P xs → All P (sort xs)
  unfolding sort
  All-sort P [] h = h
  All-sort P (x ∷ xs) h = All-insert P x (sort xs) h.0 (All-sort P xs h.1)

  -- A symmetric relation between all elements is kept.
  module _ (R : A → A → Type 0) (symm : (x y : A) → R x y → R y x) where
    AllPairs-insert :
        (x : A) (xs : List A) → All (R x) xs → AllPairs R xs → AllPairs R (insert x xs)
    unfolding insert
    AllPairs-insert x [] h p = (tt, tt)
    AllPairs-insert x (y ∷ ys) h p =
        ground (arith, All-insert (R y) x ys (symm x y h.0) p.0, AllPairs-insert x ys h.1 p.1)

    pub AllPairs-sort : (xs : List A) → AllPairs R xs → AllPairs R (sort xs)
    unfolding sort
    AllPairs-sort [] p = tt
    AllPairs-sort (x ∷ xs) p =
        AllPairs-insert x (sort xs) (All-sort (R x) xs p.0) (AllPairs-sort xs p.1)

  pub length-insert : (x : A) (xs : List A) → length (insert x xs) ≡ suc (length xs)
  unfolding insert
  length-insert x [] = refl
  length-insert x (y ∷ ys) = ground (arith, length-insert x ys)

  pub length-sort : (xs : List A) → length (sort xs) ≡ length xs
  unfolding sort
  length-sort [] = refl
  length-sort (x ∷ xs) = omega (arith, length-insert x (sort xs), length-sort xs)

  insert_least : (x : A) (xs : List A) → All (λ y. le x y ≡ true) xs → insert x xs ≡ x ∷ xs
  unfolding insert
  insert_least x [] h = refl
  insert_least x (y ∷ ys) h = ground arith

  -- A sorted list is left as it is.
  pub sort_sorted : (xs : List A) → IsSorted xs → sort xs ≡ xs
  unfolding sort
  sort_sorted [] h = refl
  sort_sorted (x ∷ xs) h = rw (sort_sorted xs h.1) (insert_least x xs h.0)

  module _ (total : (x y : A) → le x y ≡ false → le y x ≡ true)
      (trans : (x y z : A) → le x y ≡ true → le y z ≡ true → le x z ≡ true) where
    below_all :
        (x y : A) (ys : List A)
        → le x y ≡ true
        → All (λ z. le y z ≡ true) ys
        → All (λ z. le x z ≡ true) ys
    below_all x y [] e h = h
    below_all x y (z ∷ ys) e h = (trans x y z e h.0, below_all x y ys e h.1)

    insert-IsSorted : (x : A) (xs : List A) → IsSorted xs → IsSorted (insert x xs)
    unfolding insert
    insert-IsSorted x [] h = (tt, tt)
    insert-IsSorted x (y ∷ ys) h = ground (
      arith,
      total x y,
      below_all x y ys,
      All-insert (λ z. le y z ≡ true) x ys,
      insert-IsSorted x ys h.1,
    )

    pub sort-IsSorted : (xs : List A) → IsSorted (sort xs)
    unfolding sort
    sort-IsSorted [] = tt
    sort-IsSorted (x ∷ xs) = insert-IsSorted x (sort xs) (sort-IsSorted xs)
