-- ===== src/Base/Cut.antt =====
-- A sorted list has the elements of the list, and what is cut off comes later.
use Prim.Native.Nat.{ℕ, zero, suc, ◌≤◌}
use mathlib.Core.Path.{◌≡◌, refl, ap}
use mathlib.Core.Logic.{◌⊎◌, ◌↔◌, inl, inr}
use mathlib.Core.Bool.{Bool, true}
use mathlib.Core.List.{List, [], ◌∷◌, ◌++◌}
use native.Mathlib.Omega.{arith}
use dlp_server.Base.Tests.{Bool-cases}
use dlp_server.Base.Lists.{All, Member, length, take, drop}
use dlp_server.Base.Sort.{insert, sort, IsSorted}

module _ {ℓ} {A : Type ℓ} (le : A → A → Bool) where
  Member-insert : (z x : A) (xs : List A) → Member z (insert le x xs) ↔ ((z ≡ x) ⊎ Member z xs)
  unfolding insert
  Member-insert z x [] = (λ m. m, λ m. m)
  Member-insert z x (y ∷ ys) = elim (Bool-cases (le x y)) [
    | inl t ↦ rw t (λ m. m, λ m. m)
    | inr f ↦
        let (g, h) = Member-insert z x ys in
        rw f (
          λ m. elim m [
            | inl q ↦ inr (inl q)
            | inr n ↦ elim (g n) [ inl q ↦ inl q | inr k ↦ inr (inr k) ]
          ],
          λ m. elim m [
            | inl q ↦ inr (h (inl q))
            | inr n ↦ elim n [ inl q ↦ inl q | inr k ↦ inr (h (inr k)) ]
          ],
        )
  ]

  pub Member-sort : (z : A) (xs : List A) → Member z (sort le xs) ↔ Member z xs
  unfolding sort
  Member-sort z [] = (λ m. m, λ m. m)
  Member-sort z (x ∷ xs) =
      let (f, g) = Member-insert z x (sort le xs) in
      let (h, k) = Member-sort z xs in
      (
        λ m. elim (f m) [ inl q ↦ inl q | inr n ↦ inr (h n) ],
        λ m. g (elim m [ inl q ↦ inl q | inr n ↦ inr (k n) ]),
      )

  -- a sorted list, cut in two
  All-take :
      (P : A → Type 0) (n : ℕ) (xs : List A) → All P xs → All P (take n xs) × All P (drop n xs)
  All-take P zero xs h = (tt, h)
  All-take P (suc n) [] h = (tt, tt)
  All-take P (suc n) (x ∷ xs) h = let (a, b) = All-take P n xs h.1 in ((h.0, a), b)

  pub take-IsSorted :
      (n : ℕ) (xs : List A)
      → IsSorted le xs
      → IsSorted le (take n xs) × All (λ x. All (λ y. le x y ≡ true) (drop n xs)) (take n xs)
  take-IsSorted zero xs h = (tt, tt)
  take-IsSorted (suc n) [] h = (tt, tt)
  take-IsSorted (suc n) (x ∷ xs) h =
      let (a, b) = All-take (λ y. le x y ≡ true) n xs h.0 in
      let (s, t) = take-IsSorted n xs h.1 in ((a, s), (b, t))

module _ {ℓ} {A : Type ℓ} where
  pub take-drop : (n : ℕ) (xs : List A) → take n xs ++ drop n xs ≡ xs
  take-drop zero xs = refl
  take-drop (suc n) [] = refl
  take-drop (suc n) (x ∷ xs) = ap (λ ys. x ∷ ys) (take-drop n xs)

  -- what is cut off is nothing, unless the limit is reached
  pub length-take :
      (n : ℕ) (xs : List A)
      → (length (take n xs) ≤ n) × ((drop n xs ≡ []) ⊎ (length (take n xs) ≡ n))
  length-take zero xs = (omega arith, inr refl)
  length-take (suc n) [] = (omega arith, inl refl)
  length-take (suc n) (x ∷ xs) =
      let (l, e) = length-take n xs in
      (omega (arith, l), elim e [ inl d ↦ inl d | inr q ↦ inr (ap suc q) ])
