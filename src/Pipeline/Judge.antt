-- ===== src/Pipeline/Judge.antt =====
-- pipeline.py: the reason object, `_block_check`, and the answer once the stages have run.
use dlp_server.Base.{
  Bool, false, ◌&&◌, not, Option, none, some, List, [], ◌∷◌, map, Result, ok, raised, filter,
  if◌then◌else◌,
}
use dlp_server.Base.Str.{Str, str, eq}
use dlp_server.Base.Float.{Float}
use dlp_server.Base.Unicode.{Unicode}
use dlp_server.Models.{Turn, Span, Hit, Context, Summary, Reason, Decision}
use dlp_server.Transform.Mask.{mask_preview}
use dlp_server.Pipeline.Run.{Config}

abbrev pub some_hit : Option Hit → List Hit
some_hit none = []
some_hit (some h) = h ∷ []

module _ {F : Type 0} where
  -- `_transforms_summary`
  unfoldable pub transforms_summary : Context F → List (Str × Str)
  transforms_summary ctx =
      map (λ p. (p.0.type, p.1)) (filter (λ p. not (eq p.1 (str "keep"))) ctx.span_actions)

module _ {F Body : Type 0} where
  abbrev pub decided : Str → Option Body → Reason F → Decision F Body
  decided action body r = record { action = action; transformed_body = body; reason_obj = r }

module _ {F : Type 0} ⦃fl : Float F⦄ where
  -- the context that `_analyze_input` and `_analyze_output` begin with
  unfoldable pub new_context : Str → Str → Str → Option Str → List Turn → Context F
  new_context session_id direction provider role turns = record {
    session_id = session_id;
    direction = direction;
    provider = provider;
    role = role;
    turns = turns;
    new_turn_spans = [];
    accumulated = [];
    risk_score = fl.lit 0 0;
    injection = record { hit = false; score = fl.lit 0 0; pattern = none };
    blocked = false;
    block_reason = none;
    purpose = none;
    purpose_confidence = none;
    span_actions = [];
  }

-- `round4` is round(x, 4)
module _ {F : Type 0} ⦃fl : Float F⦄ ⦃u : Unicode⦄ (round4 : F → F) where
  -- `_entities_summary`
  unfoldable pub entities_summary : Context F → List (Summary F)
  entities_summary ctx =
      map
        (λ (s : Span F). record {
          type = s.type;
          confidence = round4 s.confidence;
          masked_preview = mask_preview s;
        })
        ctx.new_turn_spans

  -- `_reason`, with the two keys that its callers add
  unfoldable pub reason : Context F → Str → List Hit → Option Str → Reason F
  reason ctx verdict guardrail_hits note = record {
    verdict = some verdict;
    provider = some ctx.provider;
    transforms = transforms_summary ctx;
    entities_summary = entities_summary ctx;
    purpose = ctx.purpose;
    risk_score = some (round4 ctx.risk_score);
    guardrail_hits = guardrail_hits;
    fail_policy_applied = false;
    note = note;
    stage = none;
  }

  module _ {Body : Type 0} where
    -- `_block_check`
    unfoldable pub block_check : Context F → Config F → Bool → Option (Decision F Body)
    block_check ctx cfg check_risk =
        if ctx.blocked
        then some
            (decided (str "block") none (reason ctx (str "block") (some_hit ctx.block_reason) none))
        else if ctx.injection.hit
        then some (
            decided (str "block") none (
              reason ctx (str "block")
                (((str "type", some (str "injection"))
                    ∷ (str "pattern", ctx.injection.pattern)
                    ∷ [])
                  ∷ [])
                none))
        else if check_risk && fl.le cfg.hard_block ctx.risk_score
        then some (
            decided (str "block") none (reason ctx (str "block") [] (some (str "risk_hard_block"))))
        else none

    -- the answer once the stages have run: a block, the body as it came, or the body made anew
    unfoldable pub judge :
        Context F → Config F → Bool → Bool → Result Body → Result (Decision F Body)
    judge ctx cfg check_risk unchanged new_body = elim (block_check ctx cfg check_risk) [
      | some decision ↦ ok decision
      | none ↦
          if unchanged
          then ok (decided (str "allow") none (reason ctx (str "allow") [] none))
          else elim new_body [
            | raised ↦ raised
            | ok body ↦
                ok (decided (str "transform") (some body) (reason ctx (str "transform") [] none))
          ]
    ]
