-- ===== src/Purpose/Classifier.antt =====
-- app/purpose/classifier.py: the first rule whose pattern is found gives the purpose. A rule's
-- pattern is the search that it stands for, which may raise.
use dlp_server.Base.{
  Bool, true, false, List, [], ◌∷◌, ◌++◌, ◌≡◌, refl, inl, inr, ap, Bool-cases, All, Result, rescue,
  if◌then◌else◌,
}
use dlp_server.Base.Str.{Str, str}
use dlp_server.Base.Float.{Float}

pub record Pattern : Type 0 where
  pub name : Str
  pub search : Str → Result Bool

-- the loop skips a rule that raises
unfoldable pub found : Pattern → Str → Bool
found r text = rescue (r.search text) false

unfoldable pub unknown : Str
unknown = str "unknown"

module _ {F : Type 0} ⦃fl : Float F⦄ where
  -- `RuleClassifier.classify`, which raises nothing itself
  unfoldable pub classify : List Pattern → Str → Str × F
  classify [] text = (unknown, fl.lit 0 0)
  classify (r ∷ rest) text =
      let later = classify rest text in if found r text then (r.name, fl.lit 8 1) else later

  -- what the classifier may answer, with the reason
  pub data Classified (rules : List Pattern) (text : Str) : Str × F → Type 0 where
    by_rule :
        (before after : List Pattern) (r : Pattern)
        → rules ≡ before ++ r ∷ after
        → All (λ q. found q text ≡ false) before
        → found r text ≡ true
        → Classified rules text (r.name, fl.lit 8 1)
    by_default : All (λ q. found q text ≡ false) rules → Classified rules text (unknown, fl.lit 0 0)

  cons_before :
      (q : Pattern) (rest : List Pattern) (text : Str) {answer : Str × F}
      → found q text ≡ false
      → Classified rest text answer
      → Classified (q ∷ rest) text answer
  cons_before q rest text no_match (by_rule before after r split quiet hit) =
      by_rule (q ∷ before) after r (ap (λ t. q ∷ t) split) (no_match, quiet) hit
  cons_before q rest text no_match (by_default quiet) = by_default (no_match, quiet)

  -- The answer is that of the first rule whose pattern is found, rules that raise being passed
  -- over, and "unknown" with confidence 0 exactly where no pattern is found.
  pub classify-Classified :
      (rules : List Pattern) (text : Str) → Classified rules text (classify rules text)
  unfolding classify
  classify-Classified [] text = by_default tt
  classify-Classified (q ∷ rest) text = elim (Bool-cases (found q text)) [
    | inl e ↦ rw e (by_rule [] rest q refl tt e)
    | inr e ↦ rw e (cons_before q rest text e (classify-Classified rest text))
  ]
