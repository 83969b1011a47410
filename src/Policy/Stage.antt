-- ===== src/Policy/Stage.antt =====
-- engine.py: the cached ruleset and the pipeline stage [5]. A load of the ruleset from PostgreSQL
-- returns it or raises; which of the two is an argument.
use dlp_server.Base.{
  Bool, true, Option, none, some, List, [], ◌∷◌, ◌++◌, Result, ok, raised, not, if◌then◌else◌,
}
use dlp_server.Base.Str.{Str, str, eq}
use dlp_server.Base.Float.{Float}
use dlp_server.Base.Unicode.{Unicode}
use dlp_server.Models.{Turn, Span, Context, Hit}
use dlp_server.Purpose.Classifier.{Pattern, classify}
use dlp_server.Policy.{Ruleset, pick_action}

-- `ruleset()`: the answer and the cache after the call
unfoldable pub cached_ruleset : Result Ruleset → Option Ruleset → Result Ruleset × Option Ruleset
cached_ruleset load (some rs) = (ok rs, some rs)
cached_ruleset (ok rs) none = (ok rs, some rs)
cached_ruleset raised none = (raised, none)

-- `_last_user_text(ctx.turns)`: the search runs from the end, so a later user turn goes first
unfoldable pub last_user_text : List Turn → Option Str
last_user_text [] = none
last_user_text (t ∷ rest) = elim (last_user_text rest) [
  | some text ↦ some text
  | none ↦ if eq t.role (str "user") then some t.text else none
]

abbrev pub or_empty : Option Str → Str
or_empty none = []
or_empty (some s) = s

abbrev pub is_block : Str → Bool
is_block action = eq action (str "block")

abbrev pub is_input : Str → Bool
is_input direction = eq direction (str "input")

module _ {F : Type 0} where
  unfoldable pub policy_hit : Span F → Option Str → Hit
  policy_hit span purpose =
      (str "type", some (str "policy"))
      ∷ (str "entity", some span.type)
      ∷ (str "purpose", purpose)
      ∷ []

  -- one round of the loop, once the action is decided
  unfoldable pub note_action : Context F → Span F → Str → Context F
  note_action ctx span action = record ctx {
    span_actions = ctx.span_actions ++ (span, action) ∷ [];
    blocked = if is_block action then true else ctx.blocked;
    block_reason = if is_block action then some (policy_hit span ctx.purpose) else ctx.block_reason;
  }

  -- the handler of the stage
  unfoldable pub stage_error : Context F → Context F
  stage_error ctx = record ctx {
    blocked = true;
    block_reason =
        some ((str "type", some (str "policy")) ∷ (str "note", some (str "stage_error")) ∷ []);
  }

module _ {F : Type 0} ⦃fl : Float F⦄ ⦃u : Unicode⦄ where
  -- `decide` for a span, with the axes of the context
  unfoldable pub decide : Context F → Ruleset → Span F → Str
  decide ctx rs span =
      pick_action rs (or_empty ctx.purpose) ctx.role span.type ctx.risk_score ctx.injection.hit

  -- The loop over the spans, under its `try`.
  unfoldable pub decide_spans :
      Result Ruleset → Context F → List (Span F) → Option Ruleset → Context F × Option Ruleset
  decide_spans load ctx [] cache = (ctx, cache)
  decide_spans load ctx (span ∷ rest) cache =
      let (answer, cache') = cached_ruleset load cache in
      elim answer [
        | ok rs ↦ decide_spans load (note_action ctx span (decide ctx rs span)) rest cache'
        | raised ↦ (stage_error ctx, cache')
      ]

  unfoldable pub with_purpose : List Pattern → Context F → Context F
  with_purpose rules ctx =
      let (purpose, confidence) = classify rules (or_empty (last_user_text ctx.turns)) in
      record ctx { purpose = some purpose; purpose_confidence = some confidence }

  unfoldable pub purpose_policy_stage :
      List Pattern → Result Ruleset → Context F → Option Ruleset → Context F × Option Ruleset
  purpose_policy_stage rules load ctx cache =
      if not (is_input ctx.direction)
      then (ctx, cache)
      else decide_spans load (with_purpose rules ctx) ctx.new_turn_spans cache
