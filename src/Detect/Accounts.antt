-- ===== src/Detect/Accounts.antt =====
-- regex_rules.py: a card or a phone number is never also taken for an account.
use dlp_server.Base.{
  ◌≡◌, refl, subst, Bool, false, List, [], ◌∷◌, ◌++◌, Result, ok, raised, ◌>>=◌, Bool-cases, inl,
  inr, ◌⊎◌, arith, All, All-map, All-append, All-map_of, any, absurd_test,
}
use dlp_server.Base.Str.{Str, str, eq, eq_refl}
use dlp_server.Base.Float.{Float}
use dlp_server.Base.Unicode.{Unicode}
use dlp_server.Models.{Span}
use dlp_server.Detect.Regex.{
  Match, Patterns, span_of, checksum_confidence, detect_checked, detect_plain, spans_overlap,
  drop_overlapping, all_spans, detect,
}

All-split {ℓ κ} :
    {A : Type ℓ} (P : A → Type κ) (xs ys : List A) → All P (xs ++ ys) → All P xs × All P ys
All-split P [] ys h = (tt, h)
All-split P (x ∷ xs) ys h = let (a, b) = All-split P xs ys h.1 in ((h.0, a), b)

any-false :
    {F : Type 0} (p : Span F → Bool) (xs : List (Span F))
    → any p xs ≡ false
    → All (λ x. p x ≡ false) xs
any-false p [] h = tt
any-false p (x ∷ xs) h =
    let here : p x ≡ false = ground (arith, h) in
    let later : any p xs ≡ false = ground (arith, h) in (here, any-false p xs later)

module _ {F : Type 0} where
  -- every span has the type
  abbrev pub HasType : Str → List (Span F) → Type 0
  HasType t xs = All (λ s. s.type ≡ t) xs

  kept_apart :
      (higher xs : List (Span F))
      → HasType (str "ACCOUNT") xs
      → All
          (λ a. (a.type ≡ str "ACCOUNT") × All (λ b. spans_overlap a b ≡ false) higher)
          (drop_overlapping higher xs)
  unfolding drop_overlapping
  kept_apart higher [] h = tt
  kept_apart higher (x ∷ xs) h = elim (Bool-cases (any (spans_overlap x) higher)) [
    | inl e ↦ rw e (kept_apart higher xs h.1)
    | inr e ↦ rw e ((h.0, any-false (spans_overlap x) higher e), kept_apart higher xs h.1)
  ]

module _ {F : Type 0} ⦃fl : Float F⦄ where
  detect_plain-HasType : (t : Str) (c : F) (ms : List Match) → HasType t (detect_plain t c ms)
  unfolding detect_plain
  detect_plain-HasType t c ms = All-map_of _ (span_of t c) ms (λ m. unfold span_of in refl)

  -- a result that holds, if it is there
  abbrev AllOk : Str → Result (List (Span F)) → Type 0
  AllOk t (ok xs) = HasType t xs
  AllOk t raised = Unit

  cons_ok :
      (t : Str) (m : Match) (c : Result Bool) (r : Result (List (Span F)))
      → AllOk t r
      → AllOk t
          (c >>= λ passed. r >>= λ spans. ok (span_of t (checksum_confidence passed) m ∷ spans))
  unfolding span_of
  cons_ok t m raised r h = tt
  cons_ok t m (ok b) raised h = tt
  cons_ok t m (ok b) (ok xs) h = (refl, h)

module _ (F : Type 0) ⦃fl : Float F⦄ where
  detect_checked-AllOk :
      (t : Str) (v : Str → Result Bool) (d : Match → Str) (ms : List Match)
      → AllOk t (detect_checked {F = F} t v d ms)
  unfolding detect_checked
  detect_checked-AllOk t v d [] = tt
  detect_checked-AllOk t v d (m ∷ ms) =
      cons_ok t m (v (d m)) (detect_checked {F = F} t v d ms) (detect_checked-AllOk t v d ms)

module _ {F : Type 0} where
  -- no account of the list overlaps a card or a phone number of it
  abbrev pub AccountsApart : List (Span F) → Type 0
  AccountsApart spans =
      All
        (λ a.
          a.type ≡ str "ACCOUNT"
          → All (λ b. (b.type ≡ str "CARD") ⊎ (b.type ≡ str "PHONE") → spans_overlap a b ≡ false)
              spans)
        spans

  no_account :
      (t : Str) (spans xs : List (Span F))
      → eq t (str "ACCOUNT") ≡ false
      → HasType t xs
      → All
          (λ a.
            a.type ≡ str "ACCOUNT"
            → All
                (λ b. (b.type ≡ str "CARD") ⊎ (b.type ≡ str "PHONE") → spans_overlap a b ≡ false)
                spans)
          xs
  no_account t spans xs e =
      All-map
        (λ x (h : x.type ≡ t). λ k. absurd (absurd_test (rw (← h, k) (eq_refl (str "ACCOUNT"))) e))
        xs

  no_higher :
      (a : Span F) (t : Str) (xs : List (Span F))
      → eq t (str "CARD") ≡ false
      → eq t (str "PHONE") ≡ false
      → HasType t xs
      → All (λ b. (b.type ≡ str "CARD") ⊎ (b.type ≡ str "PHONE") → spans_overlap a b ≡ false) xs
  no_higher a t xs c p = All-map (λ x (h : x.type ≡ t). wrong_type x h) xs
    where
      wrong_type :
          (x : Span F)
          → x.type ≡ t
          → (x.type ≡ str "CARD") ⊎ (x.type ≡ str "PHONE")
          → spans_overlap a x ≡ false
      wrong_type x h (inl k) = absurd (absurd_test (rw (← h, k) (eq_refl (str "CARD"))) c)
      wrong_type x h (inr k) = absurd (absurd_test (rw (← h, k) (eq_refl (str "PHONE"))) p)

  -- what is known of an account that is kept
  abbrev Kept : List (Span F) → Span F → Type 0
  Kept higher a = (a.type ≡ str "ACCOUNT") × All (λ b. spans_overlap a b ≡ false) higher

  keep_higher :
      (a : Span F) (xs : List (Span F))
      → All (λ b. spans_overlap a b ≡ false) xs
      → All (λ b. (b.type ≡ str "CARD") ⊎ (b.type ≡ str "PHONE") → spans_overlap a b ≡ false) xs
  keep_higher a xs = All-map (λ x (h : spans_overlap a x ≡ false). λ _. h) xs

  joined :
      (rrns cards biznos phones emails accounts : List (Span F))
      → HasType (str "RRN") rrns
      → HasType (str "CARD") cards
      → HasType (str "BIZNO") biznos
      → HasType (str "PHONE") phones
      → HasType (str "EMAIL") emails
      → All (Kept (cards ++ phones)) accounts
      → AccountsApart (rrns ++ (cards ++ (biznos ++ (phones ++ (emails ++ accounts)))))
  unfolding eq
  joined rrns cards biznos phones emails accounts r c b p e k =
      let spans = rrns ++ (cards ++ (biznos ++ (phones ++ (emails ++ accounts)))) in
      let types : HasType (str "ACCOUNT") accounts =
        All-map (λ x (h : Kept (cards ++ phones) x). h.0) accounts k in
      let P = λ (a : Span F).
        a.type ≡ str "ACCOUNT"
        → All (λ b. (b.type ≡ str "CARD") ⊎ (b.type ≡ str "PHONE") → spans_overlap a b ≡ false)
            spans in
      let of_account = λ (a : Span F) (h : Kept (cards ++ phones) a).
        let (left, right) = All-split (λ b. spans_overlap a b ≡ false) cards phones h.1 in
        λ (t : a.type ≡ str "ACCOUNT").
          let Q = λ (b : Span F).
            (b.type ≡ str "CARD") ⊎ (b.type ≡ str "PHONE") → spans_overlap a b ≡ false in
          All-append Q rrns _ (no_higher a _ rrns refl refl r) (
            All-append Q cards _ (keep_higher a cards left) (
              All-append Q biznos _ (no_higher a _ biznos refl refl b) (
                All-append Q phones _ (keep_higher a phones right) (
                  All-append Q emails _ (no_higher a _ emails refl refl e)
                    (no_higher a _ accounts refl refl types))))) in
      All-append P rrns _ (no_account _ spans rrns refl r) (
        All-append P cards _ (no_account _ spans cards refl c) (
          All-append P biznos _ (no_account _ spans biznos refl b) (
            All-append P phones _ (no_account _ spans phones refl p) (
              All-append P emails _ (no_account _ spans emails refl e)
                (All-map of_account accounts k)))))

module _ {F : Type 0} ⦃fl : Float F⦄ ⦃u : Unicode⦄ where
  -- if the result is there, its accounts are apart
  abbrev ApartOk : Result (List (Span F)) → Type 0
  ApartOk (ok xs) = AccountsApart xs
  ApartOk raised = Unit

  bind_apart :
      (ps : Patterns) (text : Str) (rrns cards biznos : Result (List (Span F)))
      → AllOk (str "RRN") rrns
      → AllOk (str "CARD") cards
      → AllOk (str "BIZNO") biznos
      → ApartOk (rrns >>= λ r. cards >>= λ c. biznos >>= λ b. ok (all_spans ps text r c b))
  unfolding all_spans
  bind_apart ps text raised cards biznos r c b = tt
  bind_apart ps text (ok rs) raised biznos r c b = tt
  bind_apart ps text (ok rs) (ok cs) raised r c b = tt
  bind_apart ps text (ok rs) (ok cs) (ok bs) r c b =
      let phones = detect_plain (str "PHONE") (fl.lit 65 2) (ps.phone text) in
      let emails = detect_plain (str "EMAIL") (fl.lit 9 1) (ps.email text) in
      let accounts = detect_plain (str "ACCOUNT") (fl.lit 65 2) (ps.account text) in
      joined rs cs bs phones emails (drop_overlapping (cs ++ phones) accounts) r c b
        (detect_plain-HasType (str "PHONE") (fl.lit 65 2) (ps.phone text))
        (detect_plain-HasType (str "EMAIL") (fl.lit 9 1) (ps.email text))
        (kept_apart (cs ++ phones) accounts
          (detect_plain-HasType (str "ACCOUNT") (fl.lit 65 2) (ps.account text)))

module _ (F : Type 0) ⦃fl : Float F⦄ ⦃u : Unicode⦄ where
  detect-ApartOk : (ps : Patterns) (text : Str) → ApartOk (detect {F = F} ps text)
  unfolding detect
  detect-ApartOk ps text =
      bind_apart ps text _ _ _ (detect_checked-AllOk F _ _ _ (ps.rrn text))
        (detect_checked-AllOk F _ _ _ (ps.card text)) (detect_checked-AllOk F _ _ _ (ps.bizno text))

module _ {F : Type 0} ⦃fl : Float F⦄ ⦃u : Unicode⦄ where
  -- Whatever the patterns match, no span of type ACCOUNT in the result of `detect` overlaps a
  -- span of type CARD or PHONE in it.
  pub detect-AccountsApart :
      (ps : Patterns) (text : Str) (spans : List (Span F))
      → detect ps text ≡ ok spans
      → AccountsApart spans
  detect-AccountsApart ps text spans e = subst ApartOk e (detect-ApartOk F ps text)
