-- ===== src/Guard/Injection.antt =====
-- app/guardrail/injection.py: the rules, the scan and the pipeline stage [2]. A rule's regular
-- expression is the search that it stands for, which may raise; loading the configured threshold
-- may raise too.
use dlp_server.Base.{
  Bool, true, false, ◌&&◌, Option, none, some, List, [], ◌∷◌, Result, ok, raised, rescue,
  if◌then◌else◌,
}
use dlp_server.Base.Str.{Str, str}
use dlp_server.Base.Float.{Float}
use dlp_server.Models.{Context, InjectionVerdict}
use dlp_server.Policy.Stage.{last_user_text}

-- `Rule`
pub record Rule (F : Type 0) : Type 0 where
  pub name : Str
  pub search : Str → Result Bool
  pub score : F

module _ {F : Type 0} where
  -- a rule that raises is passed over
  unfoldable pub matched : Rule F → Str → Bool
  matched r text = rescue (r.search text) false

  -- `_threshold()`: the answer and the cache after the call
  unfoldable pub threshold : Result F → Option F → Result F × Option F
  threshold load (some t) = (ok t, some t)
  threshold (ok t) none = (ok t, some t)
  threshold raised none = (raised, none)

module _ {F : Type 0} ⦃fl : Float F⦄ where
  -- the loop over the rules, with best_score and best_name
  unfoldable pub best_of : List (Rule F) → Str → F → Option Str → F × Option Str
  best_of [] text best_score best_name = (best_score, best_name)
  best_of (r ∷ rest) text best_score best_name =
      let better = matched r text && fl.lt best_score r.score in
      best_of rest text (if better then r.score else best_score)
        (if better then some r.name else best_name)

  -- `RuleEngine.scan`
  unfoldable pub engine_scan : List (Rule F) → Str → F → InjectionVerdict F
  engine_scan rules text thr =
      let (best_score, best_name) = best_of rules text (fl.lit 0 0) none in
      let hit = fl.le thr best_score in
      record { hit = hit; score = best_score; pattern = if hit then best_name else none }

  -- the verdict of `scan` when something in it raises
  unfoldable pub passed : InjectionVerdict F
  passed = record { hit = false; score = fl.lit 0 0; pattern = none }

  -- `scan` with the configured threshold
  unfoldable pub scan : List (Rule F) → Result F → Str → Option F → InjectionVerdict F × Option F
  scan rules load text cache =
      let (thr, cache') = threshold load cache in
      (elim thr [ ok t ↦ engine_scan rules text t | raised ↦ passed ], cache')

  -- ctx.block_reason = {"type": "injection", "pattern": verdict.pattern}
  unfoldable pub note_verdict : Context F → InjectionVerdict F → Context F
  note_verdict ctx verdict = record ctx {
    injection = verdict;
    blocked = if verdict.hit then true else ctx.blocked;
    block_reason =
        if verdict.hit
        then some ((str "type", some (str "injection")) ∷ (str "pattern", verdict.pattern) ∷ [])
        else ctx.block_reason;
  }

  unfoldable pub injection_guard :
      List (Rule F) → Result F → Context F → Option F → Context F × Option F
  injection_guard rules load ctx cache = elim (last_user_text ctx.turns) [
    | none ↦ (ctx, cache)
    | some [] ↦ (ctx, cache)
    | some (c ∷ s) ↦
        let (verdict, cache') = scan rules load (c ∷ s) cache in (note_verdict ctx verdict, cache')
  ]
