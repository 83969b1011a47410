-- ===== src/Vault/Label.antt =====
-- vault.py: the label <PII:TYPE:n>. A number is printed by its decimal digits.
use dlp_server.Base.{
  ℕ, zero, suc, ◌+◌, ◌-◌, ◌*◌, ◌/◌, ◌%◌, ◌<◌, ◌≡◌, sym, ◌∙◌, ap, Bool, true, false, ◌&&◌, [], ◌∷◌,
  ◌++◌, if◌then◌else◌, ltb, leb, ◌==◌, All, arith, inl, inr, Bool-cases,
}
use dlp_server.Base.Str.{Str, str}

-- str(n), in front of the digits printed so far; the fuel n + 1 is enough
unfoldable pub digits_onto : ℕ → ℕ → Str → Str
digits_onto zero n acc = acc
digits_onto (suc fuel) n acc =
    let more = digits_onto fuel (n / 10) ((b'0' + n % 10) ∷ acc) in
    if ltb n 10 then (b'0' + n) ∷ acc else more

unfoldable pub print_nat : ℕ → Str
print_nat n = digits_onto (suc n) n []

-- TOKEN_LABEL_FMT.format(etype=…, n=…)
unfoldable pub token_label : Str → ℕ → Str
token_label etype n = str "<PII:" ++ (etype ++ (b':' ∷ (print_nat n ++ str ">")))

abbrev is_ascii_digit : ℕ → Bool
is_ascii_digit c = leb b'0' c && leb c b'9'

-- The number whose digits begin the text, behind the digits read so far.
read : ℕ → Str → ℕ
read acc [] = acc
read acc (c ∷ s) =
    let more = read (acc * 10 + (c - b'0')) s in if is_ascii_digit c then more else acc

read_digit :
    (acc d m : ℕ) (s : Str) → d < 10 → acc * 10 + d ≡ m → read acc ((b'0' + d) ∷ s) ≡ read m s
unfolding read
read_digit acc d m s h e =
    let digit : is_ascii_digit (b'0' + d) ≡ true = ground arith in
    let next : acc * 10 + (b'0' + d - b'0') ≡ m = omega arith in rw digit (ap (λ k. read k s) next)

read-digits_onto :
    (fuel n : ℕ) (acc t : Str) → n < fuel → read 0 (digits_onto fuel n acc ++ t) ≡ read n (acc ++ t)
unfolding digits_onto
read-digits_onto zero n acc t h = absurd (omega arith)
read-digits_onto (suc fuel) n acc t h = elim (Bool-cases (ltb n 10)) [
  | inl e ↦ rw e (read_digit 0 n n (acc ++ t) (ground arith) (omega arith))
  | inr e ↦
      let step = read-digits_onto fuel (n / 10) ((b'0' + n % 10) ∷ acc) t (ground arith) in
      rw e (step ∙ read_digit (n / 10) (n % 10) n (acc ++ t) (omega arith) (omega arith))
]

-- the character does not occur
abbrev pub Lacks : ℕ → Str → Type 0
Lacks c = All (λ d. (d == c) ≡ false)

-- Two texts that are cut at the first `c` have equal parts.
cut_at :
    (c : ℕ) (a b s t : Str) → Lacks c a → Lacks c b → a ++ c ∷ s ≡ b ++ c ∷ t → (a ≡ b) × (s ≡ t)
cut_at c [] [] s t h k e = ground arith
cut_at c [] (x ∷ b) s t h k e = ground arith
cut_at c (x ∷ a) [] s t h k e = ground arith
cut_at c (x ∷ a) (y ∷ b) s t h k e = ground (arith, cut_at c a b s t h.1 k.1)

-- A label determines its type and its number, if the type has no colon.
pub token_label_injective :
    (e e' : Str) (n n' : ℕ)
    → Lacks b':' e
    → Lacks b':' e'
    → token_label e n ≡ token_label e' n'
    → (e ≡ e') × (n ≡ n')
unfolding token_label print_nat read
token_label_injective e e' n n' h h' p =
    let (types, tails) =
      cut_at b':' e e' (print_nat n ++ str ">") (print_nat n' ++ str ">") h h'
        (ground (arith, p)) in
    let back = read-digits_onto (suc n) n [] (str ">") (omega arith) in
    let back' = read-digits_onto (suc n') n' [] (str ">") (omega arith) in
    (types, sym back ∙ ap (read 0) tails ∙ back')
