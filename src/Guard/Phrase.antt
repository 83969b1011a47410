-- ===== src/Guard/Phrase.antt =====
-- injection.py: a phrase that the input guard blocks wherever it stands.
use dlp_server.Base.{
  ℕ, ◌≡◌, refl, subst, ◌∙◌, ap, true, false, Option, some, List, [], ◌∷◌, ◌++◌, All, Member, Result,
  ok,
}
use dlp_server.Base.Str.{Str, str}
use dlp_server.Base.Float.{Float, IsOrdered}
use dlp_server.Base.Unicode.{Unicode}
use dlp_server.Models.{Context}
use dlp_server.Policy.Stage.{last_user_text}
use dlp_server.Regexp.{char, opt, alt, lit, words, spaces1, Letters, searches}
use dlp_server.Regexp.Takes.{
  Takes, seq-Takes, alt-Takes_left, opt-Takes_none, opt-Takes_without, spaces1-Takes, lit-Takes,
  words-Takes, searches_within,
}
use dlp_server.Guard.Injection.{
  Rule, matched, threshold, scan, engine_scan, note_verdict, injection_guard,
}
use dlp_server.Guard.Rules.{default_rules, ignore_prior_en, word1}
use dlp_server.Guard.Verdict.{engine_scan_exact}

abbrev pub objects : List Str
objects =
    str "instruction"
    ∷ str "prompt"
    ∷ str "message"
    ∷ str "rule"
    ∷ str "direction"
    ∷ str "context"
    ∷ []

module _ ⦃u : Unicode⦄ where
  -- white space, at least one
  abbrev pub IsGap : Str → Type 0
  IsGap [] = Unit × ⊥
  IsGap (c ∷ s) = (u.is_space c ≡ true) × All (λ d. u.is_space d ≡ true) s

abbrev pub phrase : Str → Str → Str → Str
phrase gap1 gap2 object = str "ignore" ++ (gap1 ++ (str "previous" ++ (gap2 ++ object)))

module _ ⦃u : Unicode⦄ (l : Letters) (same : (c : ℕ) → l.caseless c c ≡ true) where
  spaces1-Takes_gap : (gap : Str) → IsGap gap → Takes l spaces1 gap
  spaces1-Takes_gap [] blank = absurd blank.1
  spaces1-Takes_gap (c ∷ s) blank = spaces1-Takes l c s blank.0 blank.1

  ignore_prior_en-Takes :
      (gap1 gap2 object : Str)
      → IsGap gap1
      → IsGap gap2
      → Member object objects
      → Takes l ignore_prior_en (phrase gap1 gap2 object)
  ignore_prior_en-Takes gap1 gap2 object g1 g2 m =
      seq-Takes l (word1 (str "ignore")) _ (str "ignore" ++ gap1)
        (str "previous" ++ (gap2 ++ object))
        (seq-Takes l (lit (str "ignore")) spaces1 (str "ignore") gap1
          (lit-Takes l same (str "ignore")) (spaces1-Takes_gap gap1 g1))
        (seq-Takes l (opt (alt (word1 (str "all")) (word1 (str "any")))) _ []
          (str "previous" ++ (gap2 ++ object)) (opt-Takes_none l _)
          (seq-Takes l _ _ (str "previous") (gap2 ++ object)
            (alt-Takes_left l (lit (str "previous")) _ (str "previous")
              (lit-Takes l same (str "previous")))
            (seq-Takes l spaces1 _ gap2 object (spaces1-Takes_gap gap2 g2) (
              opt-Takes_without l (words objects) (char b's') object
                (words-Takes l same object objects m)))))

starts : (before : Str) (c : ℕ) (s : Str) → (d : ℕ) × (t : Str) × (before ++ (c ∷ s) ≡ d ∷ t)
starts [] c s = (c, s, refl)
starts (d ∷ before) c s = (d, before ++ (c ∷ s), refl)

module _ {F : Type 0} ⦃fl : Float F⦄ where
  scan_hit :
      (rules : List (Rule F)) (load : Result F) (text : Str) (cache : Option F) (thr : F)
      → (threshold load cache).0 ≡ ok thr
      → (scan rules load text cache).0 ≡ engine_scan rules text thr
  unfolding scan
  scan_hit rules load text cache thr e = rw (e, scan) refl

  guard_hit :
      (rules : List (Rule F)) (load : Result F) (ctx : Context F) (cache : Option F) (thr : F)
      (c : ℕ) (s : Str)
      → (threshold load cache).0 ≡ ok thr
      → last_user_text ctx.turns ≡ some (c ∷ s)
      → (engine_scan rules (c ∷ s) thr).hit ≡ true
      → (injection_guard rules load ctx cache).0.blocked ≡ true
  unfolding injection_guard note_verdict
  guard_hit rules load ctx cache thr c s e said h =
      rw (said, injection_guard)
        (rw (scan_hit rules load (c ∷ s) cache thr e) (rw (h, note_verdict) refl))

  module _ ⦃u : Unicode⦄ (l : Letters) (same : (c : ℕ) → l.caseless c c ≡ true) where
    found_phrase :
        (text : Str) (thr : F)
        → IsOrdered F fl
        → fl.le thr (fl.lit 0 0) ≡ false
        → fl.le thr (fl.lit 9 1) ≡ true
        → searches l ignore_prior_en text ≡ true
        → (engine_scan (default_rules l) text thr).hit ≡ true
    unfolding default_rules matched
    found_phrase text thr order pos low f =
        (engine_scan_exact order (default_rules l) text thr pos).1.1.0 f low

    -- A request whose last user text contains `ignore previous` and one of six nouns, with
    -- white space between the words and any text before and after, is blocked by the default
    -- rules, if the threshold that is loaded or cached is above 0 and at most 0.9, and a letter
    -- is equal to itself when the case is ignored.
    pub injection_guard_ignore_previous :
        (load : Result F) (ctx : Context F) (cache : Option F) (thr : F)
        (before gap1 gap2 object after : Str)
        → IsOrdered F fl
        → IsGap gap1
        → IsGap gap2
        → Member object objects
        → (threshold load cache).0 ≡ ok thr
        → fl.le thr (fl.lit 0 0) ≡ false
        → fl.le thr (fl.lit 9 1) ≡ true
        → last_user_text ctx.turns ≡ some (before ++ (phrase gap1 gap2 object ++ after))
        → (injection_guard (default_rules l) load ctx cache).0.blocked ≡ true
    injection_guard_ignore_previous load ctx cache thr before gap1 gap2 object after order g1 g2 m e
          pos low said =
        let tail = str "gnore" ++ (gap1 ++ (str "previous" ++ (gap2 ++ object))) in
        let (d, t, q) = starts before b'i' (tail ++ after) in
        let f =
          searches_within l ignore_prior_en before (phrase gap1 gap2 object) after
            (ignore_prior_en-Takes l same gap1 gap2 object g1 g2 m) in
        guard_hit (default_rules l) load ctx cache thr d t e (said ∙ ap some q) (
          found_phrase (d ∷ t) thr order pos low
            (subst (λ z. searches l ignore_prior_en z ≡ true) q f))
