-- ===== src/Guard/Verdict.antt =====
-- injection.py: what a verdict says of the rules.
use dlp_server.Base.{
  ◌≡◌, refl, true, false, ◌&&◌, Option, none, some, List, [], ◌∷◌, All, All-map, absurd_test,
  Member, inl, inr, Bool-cases, arith, ◌∙◌, sym, if◌then◌else◌, ap, subst,
}
use dlp_server.Base.Str.{Str}
use dlp_server.Base.Float.{Float, IsOrdered}
use dlp_server.Guard.Injection.{Rule, matched, best_of, engine_scan}

module _ {F : Type 0} ⦃fl : Float F⦄ where
  -- the score that the loop ends with comes from a rule that matched, or is the one it began with
  pub data Best (rules : List (Rule F)) (text : Str) (score : F) (name : Option Str)
      : F → Option Str → Type 0 where
    kept : Best rules text score name score name
    taken :
        (r : Rule F)
        → Member r rules
        → matched r text ≡ true
        → Best rules text score name r.score (some r.name)

  weaken :
      (q : Rule F) (rules : List (Rule F)) (text : Str) (s : F) (n : Option Str) {s' : F}
      {n' : Option Str}
      → Best rules text s n s' n'
      → Best (q ∷ rules) text s n s' n'
  weaken q rules text s n kept = kept
  weaken q rules text s n (taken r m h) = taken r (inr m) h

  replaced :
      (q : Rule F) (rules : List (Rule F)) (text : Str) (s : F) (n : Option Str) {s' : F}
      {n' : Option Str}
      → matched q text ≡ true
      → Best rules text q.score (some q.name) s' n'
      → Best (q ∷ rules) text s n s' n'
  replaced q rules text s n t kept = taken q (inl refl) t
  replaced q rules text s n t (taken r m h) = taken r (inr m) h

  best_of_taken :
      (q : Rule F) (rules : List (Rule F)) (text : Str) (s : F) (n : Option Str)
      → (matched q text && fl.lt s q.score) ≡ true
      → best_of (q ∷ rules) text s n ≡ best_of rules text q.score (some q.name)
  unfolding best_of
  best_of_taken q rules text s n e = rw e refl

  best_of_kept :
      (q : Rule F) (rules : List (Rule F)) (text : Str) (s : F) (n : Option Str)
      → (matched q text && fl.lt s q.score) ≡ false
      → best_of (q ∷ rules) text s n ≡ best_of rules text s n
  unfolding best_of
  best_of_kept q rules text s n e = rw e refl

  best_of-Best :
      (rules : List (Rule F)) (text : Str) (s : F) (n : Option Str)
      → Best rules text s n (best_of rules text s n).0 (best_of rules text s n).1
  best_of-Best [] text s n = unfold best_of in kept
  best_of-Best (q ∷ rules) text s n = elim (Bool-cases (matched q text && fl.lt s q.score)) [
    | inl e ↦ rw (best_of_taken q rules text s n e) (
        replaced q rules text s n (ground (arith, e))
          (best_of-Best rules text q.score (some q.name)))
    | inr e ↦
        rw (best_of_kept q rules text s n e) (weaken q rules text s n (best_of-Best rules text s n))
  ]

  hit_named :
      (rules : List (Rule F)) (text : Str) (thr : F) {score : F} {name : Option Str}
      → fl.le thr (fl.lit 0 0) ≡ false
      → Best rules text (fl.lit 0 0) none score name
      → fl.le thr score ≡ true
      → (r : Rule F) × Member r rules
        × (matched r text ≡ true)
        × (fl.le thr r.score ≡ true)
        × ((if fl.le thr score then name else none) ≡ some r.name)
        × (score ≡ r.score)
  hit_named rules text thr pos kept h = absurd (absurd_test h pos)
  hit_named rules text thr pos (taken r m t) h = (r, m, t, h, rw h refl, refl)

  module _ (order : IsOrdered F fl) where
    -- nothing that matched, nor the score at the start, is above the score at the end
    best_of_above :
        (rules : List (Rule F)) (text : Str) (s : F) (n : Option Str) (m : F)
        → (best_of rules text s n).0 ≡ m
        → (fl.le s m ≡ true) × All (λ r. matched r text ≡ true → fl.le r.score m ≡ true) rules
    best_of_above [] text s n m e =
        let q : s ≡ m = unfold best_of in e in
        (subst (λ z. fl.le s z ≡ true) q (order.le_refl s), tt)
    best_of_above (q ∷ rules) text s n m e = elim (Bool-cases (matched q text && fl.lt s q.score)) [
      | inl t ↦
          let up =
            best_of_above rules text q.score (some q.name) m
              (sym (ap (λ z. z.0) (best_of_taken q rules text s n t)) ∙ e) in
          let l : fl.lt s q.score ≡ true = ground (arith, t) in
          (order.le_trans s q.score m (order.le_of_lt s q.score l) up.0, ((λ _. up.0), up.1))
      | inr t ↦
          let up =
            best_of_above rules text s n m
              (sym (ap (λ z. z.0) (best_of_kept q rules text s n t)) ∙ e) in
          (
            up.0,
            (
              λ h.
                  let o = order.total s q.score in
                  let l : fl.le q.score s ≡ true = ground (arith, t, h, o) in
                  order.le_trans q.score s m l up.0,
              up.1,
            ),
          )
    ]

    -- With a threshold above 0, the verdict is a hit exactly if some rule that is found in the
    -- text has a score of at least the threshold, rules that raise being passed over; no rule
    -- that is found has a higher score than the verdict's; and the verdict names a rule exactly
    -- if it is a hit, one that is found and has the verdict's score.
    pub engine_scan_exact :
        (rules : List (Rule F)) (text : Str) (thr : F)
        → fl.le thr (fl.lit 0 0) ≡ false
        → let verdict = engine_scan rules text thr in
          All (λ r. matched r text ≡ true → fl.le r.score verdict.score ≡ true) rules
          × All (λ r. matched r text ≡ true → fl.le thr r.score ≡ true → verdict.hit ≡ true) rules
          × (verdict.hit ≡ true
              → (r : Rule F) × Member r rules
                × (matched r text ≡ true)
                × (fl.le thr r.score ≡ true)
                × (verdict.pattern ≡ some r.name)
                × (verdict.score ≡ r.score))
          × (verdict.hit ≡ false → verdict.pattern ≡ none)
    unfolding engine_scan
    engine_scan_exact rules text thr pos =
        let m = (best_of rules text (fl.lit 0 0) none).0 in
        let up = best_of_above rules text (fl.lit 0 0) none m refl in
        (
          up.1,
          All-map
              (λ r (h : matched r text ≡ true → fl.le r.score m ≡ true).
                λ t k. order.le_trans thr r.score m k (h t))
              rules up.1,
          hit_named rules text thr pos (best_of-Best rules text (fl.lit 0 0) none),
          λ h. rw h refl,
        )
