-- ===== src/Transform/KeepLast.antt =====
-- apply.py: `_mask_keep_last_digits` hides exactly the digits before the last ones.
use dlp_server.Base.{
  ℕ, zero, suc, ◌-◌, ◌≤◌, ◌<◌, ◌≡◌, refl, sym, ◌∙◌, ap, true, false, List, [], ◌∷◌, if◌then◌else◌,
  leb, length, drop, All, All-map, arith, inl, inr, Bool-cases,
}
use dlp_server.Base.Str.{Str}
use dlp_server.Base.Unicode.{Unicode}
use dlp_server.Transform.Mask.{star, mem, digit_positions, hide_digits, mask_keep_last_digits}

module _ ⦃u : Unicode⦄ where
  -- the number of the digits
  pub count_digits : Str → ℕ
  count_digits [] = 0
  count_digits (c ∷ s) = let rest = count_digits s in if u.is_digit c then suc rest else rest

  -- the first k digits are hidden, and nothing else
  pub hide_first : ℕ → Str → Str
  hide_first k [] = []
  hide_first zero (c ∷ s) = c ∷ s
  hide_first (suc k) (c ∷ s) =
      if u.is_digit c then star ∷ hide_first k s else c ∷ hide_first (suc k) s

  length-digit_positions : (i : ℕ) (s : Str) → length (digit_positions i s) ≡ count_digits s
  unfolding digit_positions count_digits
  length-digit_positions i [] = refl
  length-digit_positions i (c ∷ s) = ground (arith, length-digit_positions (suc i) s)

  later : (i : ℕ) (js : List ℕ) → All (λ j. suc i ≤ j) js → All (λ j. i ≤ j) js
  later i = All-map (λ j (h : suc i ≤ j). omega arith)

  digit_positions_from : (i : ℕ) (s : Str) → All (λ j. i ≤ j) (digit_positions i s)
  unfolding digit_positions
  digit_positions_from i [] = tt
  digit_positions_from i (c ∷ s) =
      ground (arith, later i (digit_positions (suc i) s) (digit_positions_from (suc i) s))

  mem_before : (i : ℕ) (js : List ℕ) → All (λ j. suc i ≤ j) js → mem js i ≡ false
  mem_before i [] h = refl
  mem_before i (j ∷ js) h = ground (arith, mem_before i js h.1)

  drop-All : (P : ℕ → Type 0) (k : ℕ) (js : List ℕ) → All P js → All P (drop k js)
  drop-All P zero js h = h
  drop-All P (suc k) [] h = tt
  drop-All P (suc k) (j ∷ js) h = drop-All P k js h.1

  mem_here : (i : ℕ) (js : List ℕ) → mem (i ∷ js) i ≡ true
  mem_here i js = ground arith

  mem_skip : (i j : ℕ) (js : List ℕ) → i < j → mem (i ∷ js) j ≡ mem js j
  mem_skip i j js h = ground arith

  positions_digit :
      (i c : ℕ) (s : Str)
      → u.is_digit c ≡ true
      → digit_positions i (c ∷ s) ≡ i ∷ digit_positions (suc i) s
  unfolding digit_positions
  positions_digit i c s e = rw e

  positions_other :
      (i c : ℕ) (s : Str)
      → u.is_digit c ≡ false
      → digit_positions i (c ∷ s) ≡ digit_positions (suc i) s
  unfolding digit_positions
  positions_other i c s e = rw e

  hide_first_zero : (s : Str) → hide_first 0 s ≡ s
  unfolding hide_first
  hide_first_zero [] = refl
  hide_first_zero (c ∷ s) = refl

  -- Keeping all digits from the i-th position on but the first k hides these k.
  hide_digits-drop :
      (kept : List ℕ) (i k : ℕ) (s : Str)
      → ((j : ℕ) → i ≤ j → mem kept j ≡ mem (drop k (digit_positions i s)) j)
      → hide_digits kept i s ≡ hide_first k s
  unfolding hide_digits hide_first
  hide_digits-drop kept i zero [] h = refl
  hide_digits-drop kept i (suc k) [] h = refl
  hide_digits-drop kept i zero (c ∷ s) h = elim (Bool-cases (u.is_digit c)) [
    | inl e ↦
        let at = λ (j : ℕ) (l : suc i ≤ j).
          h j (omega arith)
          ∙ ap (λ ps. mem ps j) (positions_digit i c s e)
          ∙ mem_skip i j (digit_positions (suc i) s) l in
        let here =
          h i (omega arith)
          ∙ ap (λ ps. mem ps i) (positions_digit i c s e)
          ∙ mem_here i (digit_positions (suc i) s) in
        rw (e, here) (ap (λ t. c ∷ t) (hide_digits-drop kept (suc i) zero s at ∙ hide_first_zero s))
    | inr e ↦
        let at = λ (j : ℕ) (l : suc i ≤ j).
          h j (omega arith) ∙ ap (λ ps. mem ps j) (positions_other i c s e) in
        rw e (ap (λ t. c ∷ t) (hide_digits-drop kept (suc i) zero s at ∙ hide_first_zero s))
  ]
  hide_digits-drop kept i (suc k) (c ∷ s) h = elim (Bool-cases (u.is_digit c)) [
    | inl e ↦
        let at = λ (j : ℕ) (l : suc i ≤ j).
          h j (omega arith) ∙ ap (λ ps. mem (drop (suc k) ps) j) (positions_digit i c s e) in
        let gone =
          h i (omega arith)
          ∙ ap (λ ps. mem (drop (suc k) ps) i) (positions_digit i c s e)
          ∙ mem_before i _ (drop-All (λ j. suc i ≤ j) k _ (digit_positions_from (suc i) s)) in
        rw (e, gone) (ap (λ t. star ∷ t) (hide_digits-drop kept (suc i) k s at))
    | inr e ↦
        let at = λ (j : ℕ) (l : suc i ≤ j).
          h j (omega arith) ∙ ap (λ ps. mem (drop (suc k) ps) j) (positions_other i c s e) in
        rw e (ap (λ t. c ∷ t) (hide_digits-drop kept (suc i) (suc k) s at))
  ]

  -- With `keep` above 0, `_mask_keep_last_digits` hides the digits of the value but for the last
  -- `keep`, from the left, and changes nothing else; a value with no more than `keep` digits stays
  -- as it is, and with `keep` 0 every value does.
  pub mask_keep_last_digits-eq-hide_first :
      (value : Str) (keep : ℕ)
      → (0 < keep → mask_keep_last_digits value keep ≡ hide_first (count_digits value - keep) value)
        × (keep ≡ 0 → mask_keep_last_digits value keep ≡ value)
  unfolding mask_keep_last_digits
  mask_keep_last_digits-eq-hide_first value zero = (
    λ h. absurd (omega arith),
    λ _. elim (Bool-cases (leb (length (digit_positions 0 value)) 0)) [
      | inl e ↦ rw e refl
      | inr e ↦ rw e (hide_digits-drop _ 0 0 value (λ j l. refl) ∙ hide_first_zero value)
    ],
  )
  mask_keep_last_digits-eq-hide_first value (suc n) = (
    λ _. elim (Bool-cases (leb (length (digit_positions 0 value)) (suc n))) [
      | inl e ↦
          let none_left : count_digits value - suc n ≡ 0 =
            ground (arith, length-digit_positions 0 value) in
          rw (e, none_left) (sym (hide_first_zero value))
      | inr e ↦
          rw (e, ← length-digit_positions 0 value)
            (hide_digits-drop _ 0 (length (digit_positions 0 value) - suc n) value (λ j l. refl))
    ],
    λ h. absurd (omega arith),
  )
