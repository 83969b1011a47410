-- ===== src/Base/Max.antt =====
-- `max(xs, key=…)` of a list that is not empty: the first of the largest.
use mathlib.Core.Path.{◌≡◌, refl, subst, sym, ◌∙◌}
use mathlib.Core.Logic.{inl, inr}
use mathlib.Core.Bool.{Bool, true, false}
use mathlib.Core.List.{List, [], ◌∷◌}
use dlp_server.Base.Tests.{if◌then◌else◌, Bool-cases}
use dlp_server.Base.Lists.{All, All-unfilter, Member, Member-filter, all-Member, filter}

module _ {ℓ} {A : Type ℓ} (lt : A → A → Bool) where
  unfoldable pub max_by : A → List A → A
  max_by best [] = best
  max_by best (x ∷ xs) = max_by (if lt best x then x else best) xs

  max_by_taken : (b x : A) (xs : List A) → lt b x ≡ true → max_by b (x ∷ xs) ≡ max_by x xs
  unfolding max_by
  max_by_taken b x xs e = rw e

  max_by_kept : (b x : A) (xs : List A) → lt b x ≡ false → max_by b (x ∷ xs) ≡ max_by b xs
  unfolding max_by
  max_by_kept b x xs e = rw e

  -- A predicate that holds of all the values holds of the largest.
  pub max_by-All {κ} : (P : A → Type κ) (b : A) (xs : List A) → P b → All P xs → P (max_by b xs)
  max_by-All P b [] p h = unfold max_by in p
  max_by-All P b (x ∷ xs) p h = elim (Bool-cases (lt b x)) [
    | inl e ↦ rw (max_by_taken b x xs e) (max_by-All P x xs h.0 h.1)
    | inr e ↦ rw (max_by_kept b x xs e) (max_by-All P b xs p h.1)
  ]

  -- No value is above the largest, in an order that the test decides.
  module _ {κ} (Le : A → A → Type κ) (rfl : (x : A) → Le x x)
      (trans : (x y z : A) → Le x y → Le y z → Le x z) (of_lt : (x y : A) → lt x y ≡ true → Le x y)
      (of_not : (x y : A) → lt x y ≡ false → Le y x) where
    pub max_by_above : (b : A) (xs : List A) (m : A) → max_by b xs ≡ m → All (λ x. Le x m) (b ∷ xs)
    max_by_above b [] m h =
        let e : b ≡ m = unfold max_by in h in (subst (λ z. Le b z) e (rfl b), tt)
    max_by_above b (x ∷ xs) m h = elim (Bool-cases (lt b x)) [
      | inl e ↦
          let up = max_by_above x xs m (sym (max_by_taken b x xs e) ∙ h) in
          (trans b x m (of_lt b x e) up.0, up)
      | inr e ↦
          let up = max_by_above b xs m (sym (max_by_kept b x xs e) ∙ h) in
          (up.0, (trans x b m (of_not b x e) up.0, up.1))
    ]

    -- The largest of the elements that pass a test: it is one of them, and above all of them.
    pub max_by-filter :
        (p : A → Bool) (xs : List A) (b : A) (rest : List A)
        → filter p xs ≡ b ∷ rest
        → Member (max_by b rest) xs
          × (p (max_by b rest) ≡ true)
          × All (λ x. p x ≡ true → Le x (max_by b rest)) xs
    max_by-filter p xs b rest e =
        let m = max_by b rest in
        let here : Member m (b ∷ rest) =
          let own : All (λ x. Member x (b ∷ rest)) (b ∷ rest) = all-Member (b ∷ rest) in
          max_by-All (λ x. Member x (b ∷ rest)) b rest own.0 own.1 in
        let (a, t) = Member-filter p m xs (subst (Member m) (sym e) here) in
        let top = max_by_above b rest m refl in
        (a, t, All-unfilter (λ x. Le x m) p xs (subst (All (λ x. Le x m)) (sym e) top))
