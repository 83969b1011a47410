-- ===== src/Transform/Carried.antt =====
-- apply.py: what the transform stage leaves of the last turn.
use dlp_server.Base.{
  ◌≡◌, refl, sym, subst, ◌⊎◌, ap, ◌∙◌, not, none, some, List, [], ◌∷◌, ◌++◌, map, filter,
  Option-cases, inl, inr, arith,
}
use dlp_server.Base.Str.{Str, str, eq}
use dlp_server.Base.Float.{Float}
use dlp_server.Base.Unicode.{Unicode}
use dlp_server.Models.{Turn, Span, Context}
use dlp_server.Base.{ℕ}
use dlp_server.Vault.Tokenize.{tokenize}
use dlp_server.Transform.Mask.{mask}
use dlp_server.Transform.Generalize.{generalize, synthetic, append_aggregate_summary}
use dlp_server.Transform.Splice.{Replacement, replace_spans}
use dlp_server.Transform.Stage.{
  Env, World, or_redact, access_scope, redact_text, tokenize_span, at_span, is_aggregate,
  split_last, render, render_all, transform_text, transform_stage,
}

split_last-none : (turns : List Turn) → split_last turns ≡ none → turns ≡ []
unfolding split_last
split_last-none [] h = refl
split_last-none (t ∷ rest) h = elim (Option-cases (split_last rest)) [
  | inl e ↦ absurd (ground (arith, e, h))
  | inr (p, e) ↦ absurd (ground (arith, e, h))
]

split_last-some :
    (turns front : List Turn) (last : Turn)
    → split_last turns ≡ some (front, last)
    → turns ≡ front ++ last ∷ []
unfolding split_last
split_last-some [] front last h = cc
split_last-some (t ∷ rest) front last h = elim (Option-cases (split_last rest)) [
  | inl e ↦ ground (arith, e, h, split_last-none rest e)
  | inr ((front', last'), e) ↦ ground (arith, e, h, split_last-some rest front' last' e)
]

module _ {F : Type 0} ⦃fl : Float F⦄ ⦃u : Unicode⦄ (env : Env F) where
  -- what an action may put in the place of a span: a token that the vault gives for the value, or
  -- the redaction where it gives none; a synthetic value at some number of draws
  pub record Renders (ctx : Context F) (span : Span F) (action new_value : Str) : Type 0 where
    pub kept : action ≡ str "keep" → new_value ≡ span.value
    pub masked : action ≡ str "mask" → new_value ≡ mask span.type span.value
    pub generalized :
        action ≡ str "generalize" → new_value ≡ generalize env.year span.type span.value
    pub tokenized :
        action ≡ str "tokenize"
        → (w : World) × (new_value
            ≡ or_redact
                (tokenize env.ext env.up env.now env.vault_ttl_sec
                  (env.nonce w.draws)
                  ctx.session_id
                  span.type
                  span.value
                  (some (access_scope ctx))
                  w.db).0)
    pub drawn :
        action ≡ str "synthetic"
        → (k : ℕ) × (new_value ≡ (synthetic env.draw k span.type span.value).0)
    pub redacted : action ≡ str "redact" → new_value ≡ redact_text

  render-Renders :
      (ctx : Context F) (span : Span F) (action : Str) (w : World)
      → Renders ctx span action (render env action ctx span w).0
  unfolding render tokenize_span eq
  render-Renders ctx span action w = record {
    kept = λ e. rw e refl;
    masked = λ e. rw e refl;
    generalized = λ e. rw e refl;
    tokenized = λ e. (w, rw e refl);
    drawn = λ e. (w.draws, rw e refl);
    redacted = λ e. rw e refl;
  }

  -- a replacement for each span, at its place, with what its action puts there
  abbrev pub Rendered : Context F → List (Span F × Str) → List Replacement → Type 0
  Rendered ctx [] [] = Unit
  Rendered ctx [] (r ∷ rs) = Unit × ⊥
  Rendered ctx (p ∷ ps) [] = Unit × ⊥
  Rendered ctx (p ∷ ps) (r ∷ rs) =
      (r.start ≡ p.0.start)
      × (r.end ≡ p.0.end)
      × Renders ctx p.0 p.1 r.new_value
      × Rendered ctx ps rs

  abbrev pub singles : Context F → List (Span F × Str)
  singles ctx = filter (λ p. not (is_aggregate p)) ctx.span_actions

  abbrev pub grouped : Context F → List (Span F)
  grouped ctx = map (λ p. p.0) (filter is_aggregate ctx.span_actions)

  -- the spans of the group are cut out of the text, and a summary of them stands at its end
  abbrev pub with_summary : List (Span F) → Str → Str
  with_summary [] text = text
  with_summary (s ∷ rest) text = append_aggregate_summary env.amounts text (s ∷ rest)

  -- the turns after the actions of a context are carried out
  pub data Carried (ctx : Context F) : List Turn → Type 0 where
    no_action : ctx.span_actions ≡ [] → Carried ctx ctx.turns
    no_turn : ctx.turns ≡ [] → Carried ctx ctx.turns
    replaced :
        (front : List Turn) (last : Turn) (rs : List Replacement)
        → ctx.turns ≡ front ++ last ∷ []
        → Rendered ctx (singles ctx) rs
        → Carried ctx (
            front
            ++ record last {
              text =
                  with_summary
                    (grouped ctx)
                    (replace_spans last.text (rs ++ map (λ s. at_span env s []) (grouped ctx)));
            }
              ∷ [])

  render_all-Rendered :
      (ctx : Context F) (ps : List (Span F × Str)) (w : World)
      → Rendered ctx ps (render_all env ctx ps w).0
  unfolding render_all
  render_all-Rendered ctx [] w = tt
  render_all-Rendered ctx ((span, action) ∷ rest) w = (
    refl,
    refl,
    render-Renders ctx span action w,
    render_all-Rendered ctx rest (render env action ctx span w).1,
  )

  summary_cases :
      (group : List (Span F)) (text : Str)
      → (elim group [ [] ↦ text | s ∷ rest ↦ append_aggregate_summary env.amounts text (s ∷ rest) ])
        ≡ with_summary group text
  summary_cases [] text = refl
  summary_cases (s ∷ rest) text = refl

  text-with_summary :
      (ctx : Context F) (text : Str) (w : World)
      → (transform_text env ctx text w).0
        ≡ with_summary (grouped ctx) (
            replace_spans text
              ((render_all env ctx (singles ctx) w).0 ++ map (λ s. at_span env s []) (grouped ctx)))
  unfolding transform_text
  text-with_summary ctx text w = summary_cases (grouped ctx) (
      replace_spans text
        ((render_all env ctx (singles ctx) w).0 ++ map (λ s. at_span env s []) (grouped ctx)))

  turns_kept :
      (ctx : Context F) (w : World)
      → (ctx.span_actions ≡ []) ⊎ (split_last ctx.turns ≡ none)
      → ctx.turns ≡ (transform_stage env ctx w).0.turns
  unfolding transform_stage
  turns_kept ctx w h = ground (arith, h)

  turns_replaced :
      (ctx : Context F) (w : World) (a : Span F × Str) (todo : List (Span F × Str))
      (front : List Turn) (last : Turn)
      → ctx.span_actions ≡ a ∷ todo
      → split_last ctx.turns ≡ some (front, last)
      → front ++ record last { text = (transform_text env ctx last.text w).0 } ∷ []
        ≡ (transform_stage env ctx w).0.turns
  unfolding transform_stage
  turns_replaced ctx w a todo front last e h = ground (arith, e, h)

  by_actions :
      (ctx : Context F) (w : World) (todo : List (Span F × Str))
      → ctx.span_actions ≡ todo
      → Carried ctx (transform_stage env ctx w).0.turns
  by_actions ctx w [] e = subst (Carried ctx) (turns_kept ctx w (inl e)) (no_action e)
  by_actions ctx w (a ∷ todo) e = elim (Option-cases (split_last ctx.turns)) [
    | inl h ↦ subst (Carried ctx) (turns_kept ctx w (inr h)) (no_turn (split_last-none ctx.turns h))
    | inr ((front, last), h) ↦
        subst (Carried ctx)
          (ap (λ t. front ++ record last { text = t } ∷ [])
              (sym (text-with_summary ctx last.text w))
            ∙ turns_replaced ctx w a todo front last e h)
          (replaced front last (render_all env ctx (singles ctx) w).0
            (split_last-some ctx.turns front last h) (render_all-Rendered ctx (singles ctx) w))
  ]

  pub transform_stage-Carried :
      (ctx : Context F) (w : World) → Carried ctx (transform_stage env ctx w).0.turns
  transform_stage-Carried ctx w = by_actions ctx w ctx.span_actions refl
