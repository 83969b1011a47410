-- ===== src/Base/Lists.antt =====
-- Lists as the program uses them: lengths and slices over the native numbers, Boolean tests,
-- and predicates by recursion.
use Prim.Native.Nat.{ℕ, zero, suc, ◌+◌, ◌-◌, ◌≤◌}
use mathlib.Core.Path.{◌≡◌, refl, ap, sym, subst, ◌∙◌}
use mathlib.Core.Logic.{◌⊎◌, inl, inr}
use mathlib.Core.Bool.{Bool, true, false, ◌||◌}
use mathlib.Core.Option.{Option, none, some}
use mathlib.Core.List.{List, [], ◌∷◌, ◌++◌, map}
use native.Mathlib.Omega.{arith}
use dlp_server.Base.Tests.{if◌then◌else◌, Bool-cases}

pub absurd_test : {b : Bool} → b ≡ true → b ≡ false → ⊥
absurd_test t f = cc

module _ {ℓ} {A : Type ℓ} where
  abbrev pub length : List A → ℕ
  length [] = 0
  length (x ∷ xs) = suc (length xs)

  abbrev pub take : ℕ → List A → List A
  take zero xs = []
  take (suc n) [] = []
  take (suc n) (x ∷ xs) = x ∷ take n xs

  abbrev pub drop : ℕ → List A → List A
  drop zero xs = xs
  drop (suc n) [] = []
  drop (suc n) (x ∷ xs) = drop n xs

  -- xs[a:b]
  abbrev pub slice : ℕ → ℕ → List A → List A
  slice a b xs = take (b - a) (drop a xs)

  -- xs[-1]
  abbrev pub get_last? : List A → Option A
  get_last? [] = none
  get_last? (x ∷ []) = some x
  get_last? (x ∷ y ∷ xs) = get_last? (y ∷ xs)

  abbrev pub filter : (A → Bool) → List A → List A
  filter p [] = []
  filter p (x ∷ xs) = let rest = filter p xs in if p x then x ∷ rest else rest

  abbrev pub any : (A → Bool) → List A → Bool
  any p [] = false
  any p (x ∷ xs) = p x || any p xs

  abbrev pub find : (A → Bool) → List A → Option A
  find p [] = none
  find p (x ∷ xs) = let rest = find p xs in if p x then some x else rest

  abbrev pub All {κ} : (A → Type κ) → List A → Type κ
  All P [] = Unit
  All P (x ∷ xs) = P x × All P xs

  pub length-append : (xs ys : List A) → length (xs ++ ys) ≡ length xs + length ys
  length-append [] ys = omega arith
  length-append (x ∷ xs) ys = omega (arith, length-append xs ys)

  pub length-filter-le : (p : A → Bool) (xs : List A) → length (filter p xs) ≤ length xs
  length-filter-le p [] = omega arith
  length-filter-le p (x ∷ xs) = ground (arith, length-filter-le p xs)

  pub take-append : (xs ys : List A) → take (length xs) (xs ++ ys) ≡ xs
  take-append [] ys = refl
  take-append (x ∷ xs) ys = ap (λ t. x ∷ t) (take-append xs ys)

  pub drop-append : (xs ys : List A) → drop (length xs) (xs ++ ys) ≡ ys
  drop-append [] ys = refl
  drop-append (x ∷ xs) ys = drop-append xs ys

module _ {ℓ} {A : Type ℓ} where
  -- `x` stands in the list
  abbrev pub Member : A → List A → Type ℓ
  Member x [] = Unit × ⊥
  Member x (y ∷ ys) = (x ≡ y) ⊎ Member x ys

  pub Member-all :
      (xs ys : List A) → ((x : A) → Member x xs → Member x ys) → All (λ x. Member x ys) xs
  Member-all [] ys f = tt
  Member-all (x ∷ xs) ys f = (f x (inl refl), Member-all xs ys (λ z m. f z (inr m)))

  pub all-Member : (xs : List A) → All (λ x. Member x xs) xs
  all-Member xs = Member-all xs xs (λ x m. m)

  pub filter_kept :
      (p : A → Bool) (y : A) (ys : List A) → p y ≡ true → filter p (y ∷ ys) ≡ y ∷ filter p ys
  filter_kept p y ys e = rw e

  pub filter_dropped :
      (p : A → Bool) (y : A) (ys : List A) → p y ≡ false → filter p (y ∷ ys) ≡ filter p ys
  filter_dropped p y ys e = rw e

  pub Member-filter :
      (p : A → Bool) (x : A) (xs : List A) → Member x (filter p xs) → Member x xs × (p x ≡ true)
  Member-filter p x [] m = absurd m.1
  Member-filter p x (y ∷ ys) m = elim (Bool-cases (p y)) [
    | inl e ↦
        let m' : Member x (y ∷ filter p ys) = subst (Member x) (filter_kept p y ys e) m in
        elim m' [
          | inl q ↦ (inl q, ap p q ∙ e)
          | inr n ↦ let (a, b) = Member-filter p x ys n in (inr a, b)
        ]
    | inr e ↦
        let (a, b) = Member-filter p x ys (subst (Member x) (filter_dropped p y ys e) m) in
        (inr a, b)
  ]

  pub Member-All {κ} : (P : A → Type κ) (x : A) (xs : List A) → All P xs → Member x xs → P x
  Member-All P x [] h m = absurd m.1
  Member-All P x (y ∷ ys) h (inl e) = subst P (sym e) h.0
  Member-All P x (y ∷ ys) h (inr m) = Member-All P x ys h.1 m

module _ {ℓ κ} {A : Type ℓ} where
  pub All-filter : (P : A → Type κ) (p : A → Bool) (xs : List A) → All P xs → All P (filter p xs)
  All-filter P p [] h = h
  All-filter P p (x ∷ xs) h = ground (arith, All-filter P p xs h.1)

  pub All-append : (P : A → Type κ) (xs ys : List A) → All P xs → All P ys → All P (xs ++ ys)
  All-append P [] ys h k = k
  All-append P (x ∷ xs) ys h k = (h.0, All-append P xs ys h.1 k)

  pub All-map : {P Q : A → Type κ} (f : (a : A) → P a → Q a) (xs : List A) → All P xs → All Q xs
  All-map f [] h = h
  All-map f (x ∷ xs) h = (f x h.0, All-map f xs h.1)

module _ {ℓ κ} {A : Type ℓ} where
  -- What holds of the elements that pass holds of every element, if it passes.
  pub All-unfilter :
      (P : A → Type κ) (p : A → Bool) (xs : List A)
      → All P (filter p xs)
      → All (λ x. p x ≡ true → P x) xs
  All-unfilter P p [] h = tt
  All-unfilter P p (x ∷ xs) h = elim (Bool-cases (p x)) [
    | inl e ↦
        let k : All P (x ∷ filter p xs) = subst (All P) (filter_kept p x xs e) h in
        (λ _. k.0, All-unfilter P p xs k.1)
    | inr e ↦ (
      λ t. absurd (absurd_test t e),
      All-unfilter P p xs (subst (All P) (filter_dropped p x xs e) h),
    )
  ]

module _ {ℓ} {A : Type ℓ} where
  -- A filter that leaves nothing has refused every element.
  pub filter_empty : (p : A → Bool) (xs : List A) → filter p xs ≡ [] → All (λ x. p x ≡ false) xs
  filter_empty p [] h = tt
  filter_empty p (x ∷ xs) h = elim (Bool-cases (p x)) [
    | inl e ↦ absurd (cc (filter_kept p x xs e, h))
    | inr e ↦ (e, filter_empty p xs (sym (filter_dropped p x xs e) ∙ h))
  ]

  pub find_found :
      (p : A → Bool) (xs : List A) (r : A) → find p xs ≡ some r → Member r xs × (p r ≡ true)
  find_found p [] r h = cc
  find_found p (x ∷ xs) r h = elim (Bool-cases (p x)) [
    | inl e ↦ let q : x ≡ r = ground arith in (inl (sym q), subst (λ z. p z ≡ true) q e)
    | inr e ↦
        let k : find p xs ≡ some r = ground arith in let (a, b) = find_found p xs r k in (inr a, b)
  ]

  pub find-none : (p : A → Bool) (xs : List A) → All (λ x. p x ≡ false) xs → find p xs ≡ none
  find-none p [] h = refl
  find-none p (x ∷ xs) h = rw h.0 (find-none p xs h.1)

  pub All-of_all {κ} : (P : A → Type κ) (xs : List A) → ((x : A) → P x) → All P xs
  All-of_all P [] f = tt
  All-of_all P (x ∷ xs) f = (f x, All-of_all P xs f)

  pub Member-filter_of :
      (p : A → Bool) (x : A) (xs : List A) → Member x xs → p x ≡ true → Member x (filter p xs)
  Member-filter_of p x [] m e = absurd m.1
  Member-filter_of p x (y ∷ ys) (inl q) e =
      subst (Member x) (sym (filter_kept p y ys (subst (λ z. p z ≡ true) q e))) (inl q)
  Member-filter_of p x (y ∷ ys) (inr m) e = elim (Bool-cases (p y)) [
    | inl t ↦ subst (Member x) (sym (filter_kept p y ys t)) (inr (Member-filter_of p x ys m e))
    | inr t ↦ subst (Member x) (sym (filter_dropped p y ys t)) (Member-filter_of p x ys m e)
  ]

module _ {ℓ κ} {A : Type ℓ} {B : Type κ} where
  pub All-map_of {μ} :
      (P : B → Type μ) (f : A → B) (xs : List A) → ((x : A) → P (f x)) → All P (map f xs)
  All-map_of P f [] h = tt
  All-map_of P f (x ∷ xs) h = (h x, All-map_of P f xs h)

  pub Member-map : (f : A → B) (x : A) (xs : List A) → Member x xs → Member (f x) (map f xs)
  Member-map f x [] m = absurd (m.1)
  Member-map f x (y ∷ ys) (inl q) = inl (ap f q)
  Member-map f x (y ∷ ys) (inr m) = inr (Member-map f x ys m)
