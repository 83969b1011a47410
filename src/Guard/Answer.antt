-- ===== src/Guard/Answer.antt =====
-- output_check.py: what an answer that the output guard lets through has gone through.
use dlp_server.Base.{
  ◌≡◌, refl, Bool, true, false, Option, none, some, List, [], ◌∷◌, All, inl, inr, Bool-cases,
  Result, ok, raised, Result-cases, sym, ap, subst, ◌∙◌, arith, map, filter, absurd_test,
  if◌then◌else◌,
}
use dlp_server.Base.Str.{Str, str, eq, eq_refl}
use dlp_server.Base.Float.{Float}
use dlp_server.Base.Unicode.{Unicode}
use dlp_server.Models.{Turn, Span, Context}
use dlp_server.Purpose.Classifier.{Pattern, found}
use dlp_server.Transform.Splice.{replace_spans}
use dlp_server.Guard.Output.{
  GuardrailConfig, injection_compliance, masked, rescan_and_mask, guard_block, check_answer,
  output_guard,
}

injection_compliance-none :
    (rules : List Pattern) (text : Str)
    → injection_compliance rules text ≡ none
    → All (λ r. found r text ≡ false) rules
unfolding injection_compliance
injection_compliance-none [] text h = tt
injection_compliance-none (r ∷ rest) text h = elim (Bool-cases (found r text)) [
  | inl e ↦ absurd (blocked_by rest r text e h)
  | inr e ↦ (e, injection_compliance-none rest text (ground (arith, e, h)))
]
  where
    blocked_by :
        (rest : List Pattern) (r : Pattern) (text : Str)
        → found r text ≡ true
        → (if found r text then some r.name else injection_compliance rest text) ≡ none
        → ⊥
    blocked_by rest r text e h = ground (arith, e, h)

module _ {F : Type 0} ⦃fl : Float F⦄ ⦃u : Unicode⦄ where
  -- the text of the answer with the sure candidates masked
  abbrev pub masked_text : List (Span F) → Str → F → Str
  masked_text all_spans text thr =
      replace_spans text (map masked (filter (λ s. fl.le thr s.confidence) all_spans))

  -- what is true when the guard ends without a block
  pub data Checked (rules : List Pattern) (load : Result (GuardrailConfig F))
      (detect : Str → Result (List (Span F))) (turn : Turn) : List Turn → Type 0 where
    checked :
        (cfg : GuardrailConfig F) (all_spans : List (Span F)) (rest : List Turn)
        → load ≡ ok cfg
        → detect turn.text ≡ ok all_spans
        → (cfg.output_injection_check ≡ true
            → All
                (λ r.
                  found r (masked_text all_spans turn.text cfg.output_pii_min_confidence) ≡ false)
                rules)
        → Checked rules load detect turn (
            record turn { text = masked_text all_spans turn.text cfg.output_pii_min_confidence }
            ∷ rest)

  after_check :
      (rules : List Pattern) (load : Result (GuardrailConfig F))
      (detect : Str → Result (List (Span F))) (ctx : Context F) (turn : Turn) (rest : List Turn)
      (cfg : GuardrailConfig F) (spans : List (Span F)) (check : Bool) (hit : Option Str)
      → load ≡ ok cfg
      → detect turn.text ≡ ok spans
      → cfg.output_injection_check ≡ check
      → injection_compliance rules (masked_text spans turn.text cfg.output_pii_min_confidence) ≡ hit
      → (check_answer rules cfg ctx turn rest spans).blocked ≡ false
      → Checked rules load detect turn (check_answer rules cfg ctx turn rest spans).turns
  unfolding check_answer rescan_and_mask guard_block
  after_check rules load detect ctx turn rest cfg spans true none l e c h b =
      rw (c, h) (checked cfg spans rest l e (λ _. injection_compliance-none rules _ h))
  after_check rules load detect ctx turn rest cfg spans true (some p) l e c h b =
      absurd (ground (arith, c, h, b))
  after_check rules load detect ctx turn rest cfg spans false hit l e c h b =
      rw c (checked cfg spans rest l e (λ t. absurd (absurd_test t c)))

  module _ (rules : List Pattern) (load : Result (GuardrailConfig F))
      (detect : Str → Result (List (Span F))) (ctx : Context F) (turn : Turn)
      (rest : List Turn) where
    guard_load_raised :
        ctx.direction ≡ str "output"
        → ctx.turns ≡ turn ∷ rest
        → load ≡ raised
        → (output_guard rules load detect ctx).blocked ≡ true
    unfolding output_guard guard_block eq
    guard_load_raised d t l = ground (arith, d, t, l)

    guard_detect_raised :
        (cfg : GuardrailConfig F)
        → ctx.direction ≡ str "output"
        → ctx.turns ≡ turn ∷ rest
        → load ≡ ok cfg
        → detect turn.text ≡ raised
        → (output_guard rules load detect ctx).blocked ≡ true
    unfolding output_guard guard_block eq
    guard_detect_raised cfg d t l e = ground (arith, d, t, l, e)

    guard_checks :
        (cfg : GuardrailConfig F) (spans : List (Span F))
        → ctx.direction ≡ str "output"
        → ctx.turns ≡ turn ∷ rest
        → load ≡ ok cfg
        → detect turn.text ≡ ok spans
        → output_guard rules load detect ctx ≡ check_answer rules cfg ctx turn rest spans
    unfolding output_guard
    guard_checks cfg spans d t l e =
        let q : eq ctx.direction (str "output") ≡ true = rw d (eq_refl (str "output")) in
        ground (arith, q, t, l, e)

  -- If the output guard leaves an answer unblocked, then the configuration was loaded and the
  -- search for personal data ran to its end; the text of the answer is the original with every
  -- candidate of enough confidence masked; and, if the configuration asks for the check, no rule
  -- for leaked instructions is found in that text. In particular every error blocks.
  pub output_guard-Checked :
      (rules : List Pattern) (load : Result (GuardrailConfig F))
      (detect : Str → Result (List (Span F))) (ctx : Context F) (turn : Turn) (rest : List Turn)
      → ctx.direction ≡ str "output"
      → ctx.turns ≡ turn ∷ rest
      → (output_guard rules load detect ctx).blocked ≡ false
      → Checked rules load detect turn (output_guard rules load detect ctx).turns
  output_guard-Checked rules load detect ctx turn rest d t b = elim (Result-cases load) [
    | inr l ↦ absurd (absurd_test (guard_load_raised rules load detect ctx turn rest d t l) b)
    | inl (cfg, l) ↦ elim (Result-cases (detect turn.text)) [
      | inr e ↦
          absurd (absurd_test (guard_detect_raised rules load detect ctx turn rest cfg d t l e) b)
      | inl (spans, e) ↦
          let q = guard_checks rules load detect ctx turn rest cfg spans d t l e in
          let clear = sym (ap (λ c. c.blocked) q) ∙ b in
          subst (λ (c : Context F). Checked rules load detect turn c.turns) (sym q)
            (after_check rules load detect ctx turn rest cfg spans cfg.output_injection_check
              (injection_compliance rules
                (masked_text spans turn.text cfg.output_pii_min_confidence))
              l e refl refl clear)
    ]
  ]
