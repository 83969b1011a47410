-- ===== src/Policy/FailClosed.antt =====
-- engine.py: what the stage lets through.
use dlp_server.Base.{
  Bool, true, false, Option, none, some, List, [], ◌∷◌, ◌++◌, map, ◌≡◌, refl, sym, ◌∙◌, ap, subst,
  inl, inr, arith, Result, ok, raised, All, All-append, absurd_test, any, ◌||◌, Bool-cases,
  Result-cases, if◌then◌else◌,
}
use mathlib.Core.List.{append-nil, append_assoc}
use dlp_server.Base.Str.{Str}
use dlp_server.Base.Float.{Float}
use dlp_server.Base.Unicode.{Unicode}
use dlp_server.Models.{Span, Context}
use dlp_server.Purpose.Classifier.{Pattern}
use dlp_server.Policy.{Ruleset}
use dlp_server.Policy.Stage.{
  cached_ruleset, is_block, is_input, note_action, stage_error, decide, decide_spans, with_purpose,
  purpose_policy_stage,
}

-- the ruleset that the stage works with, if it can be had
abbrev pub available : Result Ruleset → Option Ruleset → Result Ruleset
available load (some rs) = ok rs
available load none = load

cached_ruleset-available :
    (load : Result Ruleset) (cache : Option Ruleset) (rs : Ruleset)
    → available load cache ≡ ok rs
    → cached_ruleset load cache ≡ (ok rs, some rs)
unfolding cached_ruleset
cached_ruleset-available load (some rs) rs' h = ground arith
cached_ruleset-available (ok rs) none rs' h = ground arith
cached_ruleset-available raised none rs' h = cc

cached_ruleset-raised :
    (load : Result Ruleset) (cache : Option Ruleset)
    → available load cache ≡ raised
    → cached_ruleset load cache ≡ (raised, none)
unfolding cached_ruleset
cached_ruleset-raised load (some rs) h = cc
cached_ruleset-raised (ok rs) none h = cc
cached_ruleset-raised raised none h = refl

or_shuffle : (b c r : Bool) → ((if b then true else c) || r) ≡ (c || (b || r))
or_shuffle true true r = refl
or_shuffle true false r = refl
or_shuffle false c r = refl

module _ {F : Type 0} ⦃fl : Float F⦄ ⦃u : Unicode⦄ where
  -- each span with its action
  abbrev pub decided : Context F → Ruleset → List (Span F) → List (Span F × Str)
  decided ctx rs spans = map (λ s. (s, decide ctx rs s)) spans

  -- some span's action is "block"
  abbrev pub refused : Context F → Ruleset → List (Span F) → Bool
  refused ctx rs spans = any (λ s. is_block (decide ctx rs s)) spans

  decide-note_action :
      (ctx : Context F) (span : Span F) (action : Str)
      → decide (note_action ctx span action) ≡ decide ctx
  unfolding decide note_action
  decide-note_action ctx span action = refl

  module _ (load : Result Ruleset) (ctx : Context F) (s : Span F) (rest : List (Span F)) where
    decide_spans-ok :
        (cache : Option Ruleset) (rs : Ruleset)
        → available load cache ≡ ok rs
        → decide_spans load ctx (s ∷ rest) cache
          ≡ decide_spans load (note_action ctx s (decide ctx rs s)) rest (some rs)
    unfolding decide_spans
    decide_spans-ok cache rs h = ground (arith, cached_ruleset-available load cache rs h)

    decide_spans-raised :
        (cache : Option Ruleset)
        → available load cache ≡ raised
        → decide_spans load ctx (s ∷ rest) cache ≡ (stage_error ctx, none)
    unfolding decide_spans
    decide_spans-raised cache h = ground (arith, cached_ruleset-raised load cache h)

  note_decided :
      (ctx : Context F) (s : Span F) (rs : Ruleset) (rest : List (Span F))
      → let next = note_action ctx s (decide ctx rs s) in
        next.span_actions ++ decided next rs rest ≡ ctx.span_actions ++ decided ctx rs (s ∷ rest)
  unfolding note_action decide
  note_decided ctx s rs rest =
      append_assoc ctx.span_actions ((s, decide ctx rs s) ∷ []) (decided ctx rs rest)

  note_refused :
      (ctx : Context F) (s : Span F) (rs : Ruleset) (rest : List (Span F))
      → let next = note_action ctx s (decide ctx rs s) in
        (next.blocked || refused next rs rest) ≡ (ctx.blocked || refused ctx rs (s ∷ rest))
  unfolding note_action decide
  note_refused ctx s rs rest =
      or_shuffle (is_block (decide ctx rs s)) ctx.blocked (refused ctx rs rest)

  -- With a ruleset at hand, the loop gives each span its action, in order.
  span_actions-decide_spans :
      (load : Result Ruleset) (ctx : Context F) (spans : List (Span F)) (cache : Option Ruleset)
      (rs : Ruleset)
      → available load cache ≡ ok rs
      → ((decide_spans load ctx spans cache).0.span_actions
          ≡ ctx.span_actions ++ decided ctx rs spans)
        × ((decide_spans load ctx spans cache).0.blocked ≡ (ctx.blocked || refused ctx rs spans))
  unfolding decide_spans
  span_actions-decide_spans load ctx [] cache rs h =
      (sym (append-nil ctx.span_actions), ground arith)
  span_actions-decide_spans load ctx (s ∷ rest) cache rs h =
      let next = note_action ctx s (decide ctx rs s) in
      let step = decide_spans-ok load ctx s rest cache rs h in
      let ih = span_actions-decide_spans load next rest (some rs) rs refl in
      (
        ap (λ r. r.0.span_actions) step ∙ ih.0 ∙ note_decided ctx s rs rest,
        ap (λ r. r.0.blocked) step ∙ ih.1 ∙ note_refused ctx s rs rest,
      )

  -- Where the request is an input and the ruleset can be had, the stage gives every detected span
  -- the action that the policy decides for the purpose of the last user turn, in order, and
  -- blocks exactly if it was blocked or one of these actions is "block".
  pub purpose_policy_stage-available :
      (rules : List Pattern) (load : Result Ruleset) (ctx : Context F) (cache : Option Ruleset)
      (rs : Ruleset)
      → is_input ctx.direction ≡ true
      → available load cache ≡ ok rs
      → let ctx' = (purpose_policy_stage rules load ctx cache).0 in
        (ctx'.span_actions
          ≡ ctx.span_actions ++ decided (with_purpose rules ctx) rs ctx.new_turn_spans)
        × (ctx'.blocked ≡ (ctx.blocked || refused (with_purpose rules ctx) rs ctx.new_turn_spans))
  unfolding purpose_policy_stage with_purpose
  purpose_policy_stage-available rules load ctx cache rs i h =
      rw i (span_actions-decide_spans load (with_purpose rules ctx) ctx.new_turn_spans cache rs h)

  blocked_stays :
      (load : Result Ruleset) (ctx : Context F) (spans : List (Span F)) (cache : Option Ruleset)
      → ctx.blocked ≡ true
      → (decide_spans load ctx spans cache).0.blocked ≡ true
  blocked_stays load ctx [] cache h = unfold decide_spans in h
  blocked_stays load ctx (s ∷ rest) cache h = elim (Result-cases (available load cache)) [
    | inl (rs, e) ↦ rw (decide_spans-ok load ctx s rest cache rs e) (
        blocked_stays load (note_action ctx s (decide ctx rs s)) rest (some rs)
          (unfold note_action in ground (arith, h)))
    | inr e ↦ rw (decide_spans-raised load ctx s rest cache e) (unfold stage_error in refl)
  ]

  block_blocks :
      (ctx : Context F) (s : Span F) (action : Str)
      → is_block action ≡ true
      → (note_action ctx s action).blocked ≡ true
  unfolding note_action
  block_blocks ctx s action e = rw e

  -- the actions noted so far let their spans through
  abbrev pub AllPass : List (Span F × Str) → Type 0
  AllPass = All (λ p. is_block p.1 ≡ false)

  map_fst_append :
      (xs : List (Span F × Str)) (s : Span F) (a : Str) (rest : List (Span F))
      → map (λ p. p.0) (xs ++ (s, a) ∷ []) ++ rest ≡ map (λ p. p.0) xs ++ s ∷ rest
  map_fst_append [] s a rest = refl
  map_fst_append (x ∷ xs) s a rest = ap (λ t. x.0 ∷ t) (map_fst_append xs s a rest)

  decide_spans_safe :
      (load : Result Ruleset) (ctx : Context F) (spans : List (Span F)) (cache : Option Ruleset)
      → AllPass ctx.span_actions
      → (decide_spans load ctx spans cache).0.blocked ≡ false
      → let actions = (decide_spans load ctx spans cache).0.span_actions in
        AllPass actions × (map (λ p. p.0) actions ≡ map (λ p. p.0) ctx.span_actions ++ spans)
  decide_spans_safe load ctx [] cache h b =
      unfold decide_spans in (h, sym (append-nil (map (λ p. p.0) ctx.span_actions)))
  decide_spans_safe load ctx (s ∷ rest) cache h b = elim (Result-cases (available load cache)) [
    | inl (rs, e) ↦
        let a = decide ctx rs s in
        let next = note_action ctx s a in
        let step = decide_spans-ok load ctx s rest cache rs e in
        let b' = sym (ap (λ r. r.0.blocked) step) ∙ b in
        elim (Bool-cases (is_block a)) [
          | inl t ↦
              absurd
                (absurd_test (blocked_stays load next rest (some rs) (block_blocks ctx s a t)) b')
          | inr t ↦
              let (p, q) =
                decide_spans_safe load next rest (some rs)
                  (unfold note_action in
                    All-append (λ (x : Span F × Str). is_block x.1 ≡ false) ctx.span_actions
                      ((s, a) ∷ []) h (t, tt))
                  b' in
              rw step (p, q ∙ unfold note_action in map_fst_append ctx.span_actions s a rest)
        ]
    | inr e ↦ absurd (
        absurd_test
          (ap (λ r. r.0.blocked) (decide_spans-raised load ctx s rest cache e)
            ∙ unfold stage_error in refl)
          b)
  ]

  -- The stage fails closed: whether or not the ruleset can be loaded, a context of a request that
  -- enters the stage without actions and leaves it unblocked has exactly one action for each
  -- detected span, in order, and none of these is "block".
  pub purpose_policy_stage_fail_closed :
      (rules : List Pattern) (load : Result Ruleset) (ctx : Context F) (cache : Option Ruleset)
      → is_input ctx.direction ≡ true
      → ctx.span_actions ≡ []
      → (purpose_policy_stage rules load ctx cache).0.blocked ≡ false
      → let actions = (purpose_policy_stage rules load ctx cache).0.span_actions in
        AllPass actions × (map (λ p. p.0) actions ≡ ctx.new_turn_spans)
  unfolding purpose_policy_stage with_purpose
  purpose_policy_stage_fail_closed rules load ctx cache i none_yet b =
      let start = with_purpose rules ctx in
      let step : purpose_policy_stage rules load ctx cache
          ≡ decide_spans load start ctx.new_turn_spans cache =
        rw i in
      let (p, q) =
        decide_spans_safe load start ctx.new_turn_spans cache (subst AllPass (sym none_yet) tt)
          (sym (ap (λ r. r.0.blocked) step) ∙ b) in
      rw step
        (p, q ∙ ap (λ (xs : List (Span F × Str)). map (λ p. p.0) xs ++ ctx.new_turn_spans) none_yet)
