-- ===== src/Base/Members.antt =====
-- The members of lists that are joined or mapped.
use mathlib.Core.Path.{◌≡◌, refl}
use mathlib.Core.Logic.{◌⊎◌, ◌↔◌, inl, inr}
use mathlib.Core.List.{List, [], ◌∷◌, ◌++◌, map}
use dlp_server.Base.Lists.{All, Member}

module _ {ℓ} {A : Type ℓ} where
  pub Member-append : (x : A) (xs ys : List A) → Member x (xs ++ ys) ↔ (Member x xs ⊎ Member x ys)
  Member-append x [] ys = (λ m. inr m, λ w. elim w [ inl n ↦ absurd n.1 | inr m ↦ m ])
  Member-append x (y ∷ xs) ys =
      let (f, g) = Member-append x xs ys in
      (
        λ m. elim m [
          | inl q ↦ inl (inl q)
          | inr n ↦ elim (f n) [ inl a ↦ inl (inr a) | inr b ↦ inr b ]
        ],
        λ w. elim w [
          | inl a ↦ elim a [ inl q ↦ inl q | inr n ↦ inr (g (inl n)) ]
          | inr b ↦ inr (g (inr b))
        ],
      )

pub Member-map_inv {ℓ κ} :
    {A : Type ℓ} {B : Type κ} (f : A → B) (y : B) (xs : List A)
    → Member y (map f xs)
    → (x : A) × Member x xs × (y ≡ f x)
Member-map_inv f y [] m = absurd m.1
Member-map_inv f y (x ∷ xs) (inl q) = (x, inl refl, q)
Member-map_inv f y (x ∷ xs) (inr m) = let (z, n, q) = Member-map_inv f y xs m in (z, inr n, q)

-- What holds of every member holds throughout.
pub Member-all_of {ℓ κ} :
    {A : Type ℓ} (P : A → Type κ) (xs : List A) → ((x : A) → Member x xs → P x) → All P xs
Member-all_of P [] f = tt
Member-all_of P (x ∷ xs) f = (f x (inl refl), Member-all_of P xs (λ z m. f z (inr m)))
