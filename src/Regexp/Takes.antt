-- ===== src/Regexp/Takes.antt =====
-- What an expression can take of a text, from what its parts can take.
use dlp_server.Base.{
  ℕ, ◌≡◌, refl, subst, Bool, true, Option, none, some, List, [], ◌∷◌, ◌++◌, All, Member, inl, inr,
  Bool-cases,
}
use dlp_server.Base.Str.{Str}
use dlp_server.Base.Unicode.{Unicode}
use dlp_server.Base.Members.{Member-append}
use dlp_server.Regexp.{
  Re, char, space, spaces, seq, alt, opt, lit, words, spaces1, Letters, Place, one, after_spaces,
  from_all, matches, is_match, search_from, searches,
}

append_nil : (s : Str) → s ++ [] ≡ s
append_nil [] = refl
append_nil (c ∷ s) = rw (append_nil s) refl

append_assoc : (s t v : Str) → (s ++ t) ++ v ≡ s ++ (t ++ v)
append_assoc [] t v = refl
append_assoc (c ∷ s) t v = rw (append_assoc s t v) refl

Member-from_all :
    (f : Place → List Place) (p q : Place) (ps : List Place)
    → Member p ps
    → Member q (f p)
    → Member q (from_all f ps)
unfolding from_all
Member-from_all f p q [] m k = absurd m.1
Member-from_all f p q (x ∷ ps) (inl e) k =
    (Member-append q (f x) (from_all f ps)).1 (inl (subst (λ z. Member q (f z)) e k))
Member-from_all f p q (x ∷ ps) (inr m) k =
    (Member-append q (f x) (from_all f ps)).1 (inr (Member-from_all f p q ps m k))

after_none :
    (is_space : ℕ → Bool) (b : Option ℕ) (t : Str) → Member (b, t) (after_spaces is_space b t)
unfolding after_spaces
after_none is_space b [] = inl refl
after_none is_space b (c ∷ t) = inl refl

after_gap :
    (is_space : ℕ → Bool) (gap : Str) (b : Option ℕ) (t : Str)
    → All (λ c. is_space c ≡ true) gap
    → (b' : Option ℕ) × Member (b', t) (after_spaces is_space b (gap ++ t))
unfolding after_spaces
after_gap is_space [] b t blank = (b, after_none is_space b t)
after_gap is_space (c ∷ gap) b t blank =
    let (b', m) = after_gap is_space gap (some c) t blank.1 in (b', rw blank.0 (inr m))

is_match_of : (p : Place) (ps : List Place) → Member p ps → is_match ps ≡ true
is_match_of p [] m = absurd m.1
is_match_of p (q ∷ ps) m = refl

module _ ⦃u : Unicode⦄ (l : Letters) where
  -- from any place where the text goes on with s, a match ends right after s
  abbrev pub Takes : Re → Str → Type 0
  Takes r s = (b : Option ℕ) (t : Str) → (b' : Option ℕ) × Member (b', t) (matches l r (b, s ++ t))

  char-Takes : (c : ℕ) → l.caseless c c ≡ true → Takes (char c) (c ∷ [])
  unfolding matches one
  char-Takes c same b t = (some c, rw same (inl refl))

  space-Takes : (c : ℕ) → u.is_space c ≡ true → Takes space (c ∷ [])
  unfolding matches one
  space-Takes c blank b t = (some c, rw blank (inl refl))

  spaces-Takes : (gap : Str) → All (λ c. u.is_space c ≡ true) gap → Takes spaces gap
  unfolding matches
  spaces-Takes gap blank b t = after_gap u.is_space gap b t blank

  pub seq-Takes : (r r' : Re) (s s' : Str) → Takes r s → Takes r' s' → Takes (seq r r') (s ++ s')
  unfolding matches
  seq-Takes r r' s s' f g b t =
      let (b1, m) = f b (s' ++ t) in
      let (b2, k) = g b1 t in
      (
        b2,
        rw (append_assoc s s' t) (
            Member-from_all (λ q. matches l r' q) (b1, s' ++ t) (b2, t)
              (matches l r (b, s ++ (s' ++ t))) m k),
      )

  pub alt-Takes_left : (r r' : Re) (s : Str) → Takes r s → Takes (alt r r') s
  unfolding matches
  alt-Takes_left r r' s f b t =
      let (b', m) = f b t in
      (b', (Member-append (b', t) (matches l r (b, s ++ t)) (matches l r' (b, s ++ t))).1 (inl m))

  alt-Takes_right : (r r' : Re) (s : Str) → Takes r' s → Takes (alt r r') s
  unfolding matches
  alt-Takes_right r r' s f b t =
      let (b', m) = f b t in
      (b', (Member-append (b', t) (matches l r (b, s ++ t)) (matches l r' (b, s ++ t))).1 (inr m))

  pub opt-Takes_none : (r : Re) → Takes (opt r) []
  unfolding matches
  opt-Takes_none r b t = (b, inl refl)

  pub opt-Takes_without : (r r' : Re) (s : Str) → Takes r s → Takes (seq r (opt r')) s
  opt-Takes_without r r' s f =
      subst (Takes (seq r (opt r'))) (append_nil s)
        (seq-Takes r (opt r') s [] f (opt-Takes_none r'))

  pub spaces1-Takes :
      (c : ℕ) (gap : Str)
      → u.is_space c ≡ true
      → All (λ d. u.is_space d ≡ true) gap
      → Takes spaces1 (c ∷ gap)
  spaces1-Takes c gap first blank =
      seq-Takes space spaces (c ∷ []) gap (space-Takes c first) (spaces-Takes gap blank)

  module _ (same : (c : ℕ) → l.caseless c c ≡ true) where
    lit-Takes_chars : (c : ℕ) (s : Str) → Takes (lit (c ∷ s)) (c ∷ s)
    lit-Takes_chars c [] = char-Takes c (same c)
    lit-Takes_chars c (d ∷ s) =
        seq-Takes (char c) (lit (d ∷ s)) (c ∷ []) (d ∷ s) (char-Takes c (same c))
          (lit-Takes_chars d s)

  search_here :
      (r : Re) (b : Option ℕ) (t : Str)
      → is_match (matches l r (b, t)) ≡ true
      → search_from l r b t ≡ true
  unfolding search_from
  search_here r b [] e = e
  search_here r b (c ∷ t) e = rw e refl

  search_later :
      (r : Re) (b : Option ℕ) (c : ℕ) (t : Str)
      → search_from l r (some c) t ≡ true
      → search_from l r b (c ∷ t) ≡ true
  unfolding search_from
  search_later r b c t e = elim (Bool-cases (is_match (matches l r (b, c ∷ t)))) [
    | inl h ↦ rw h refl
    | inr h ↦ rw (h, e) refl
  ]

  search_within :
      (r : Re) (b : Option ℕ) (before s after : Str)
      → Takes r s
      → search_from l r b (before ++ (s ++ after)) ≡ true
  search_within r b [] s after f =
      let (b', m) = f b after in
      search_here r b (s ++ after) (is_match_of (b', after) (matches l r (b, s ++ after)) m)
  search_within r b (c ∷ before) s after f =
      search_later r b c (before ++ (s ++ after)) (search_within r (some c) before s after f)

  pub searches_within :
      (r : Re) (before s after : Str) → Takes r s → searches l r (before ++ (s ++ after)) ≡ true
  unfolding searches
  searches_within r before s after f = search_within r none before s after f

  module _ (same : (c : ℕ) → l.caseless c c ≡ true) where
    pub lit-Takes : (s : Str) → Takes (lit s) s
    lit-Takes [] = λ b t. (b, unfold matches in inl refl)
    lit-Takes (c ∷ s) = lit-Takes_chars same c s

    pub words-Takes : (w : Str) (ws : List Str) → Member w ws → Takes (words ws) w
    words-Takes w [] m = absurd m.1
    words-Takes w (s ∷ []) (inl e) = subst (λ z. Takes (lit z) w) e (lit-Takes w)
    words-Takes w (s ∷ []) (inr m) = absurd m.1
    words-Takes w (s ∷ t ∷ ss) (inl e) =
        alt-Takes_left (lit s) (words (t ∷ ss)) w (subst (λ z. Takes (lit z) w) e (lit-Takes w))
    words-Takes w (s ∷ t ∷ ss) (inr m) =
        alt-Takes_right (lit s) (words (t ∷ ss)) w (words-Takes w (t ∷ ss) m)
