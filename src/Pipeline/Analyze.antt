-- ===== src/Pipeline/Analyze.antt =====
-- pipeline.py: `analyze` and what it calls.
use dlp_server.Base.{
  true, false, none, some, List, [], ◌∷◌, ◌++◌, Result, ok, raised, ◌>>=◌, rescue, if◌then◌else◌,
}
use dlp_server.Base.Str.{Str, str, eq}
use dlp_server.Base.Float.{Float}
use dlp_server.Base.Unicode.{Unicode}
use dlp_server.Models.{Turn, Decision}
use dlp_server.Purpose.RoleResolver.{resolve}
use dlp_server.Pipeline.Run.{
  Adapter, Config, Stage, select_adapter, run_stages, texts, same_texts, first_text,
}
use dlp_server.Pipeline.Judge.{decided, new_context, judge}

module _ {F Body : Type 0} where
  -- the decision where an exception reaches `analyze`
  unfoldable pub failed : Config F → Decision F Body
  failed cfg = decided cfg.fail_action none (record {
    verdict = none;
    provider = none;
    transforms = [];
    entities_summary = [];
    purpose = none;
    risk_score = none;
    guardrail_hits = [];
    fail_policy_applied = true;
    note = none;
    stage = some (str "pipeline");
  })

  -- the decision of `_dispatch` for a direction that it does not know; `repr_of` is repr()
  unfoldable pub unknown_direction : (Str → Str) → Str → Decision F Body
  unknown_direction repr_of direction = decided (str "allow") none (record {
    verdict = none;
    provider = none;
    transforms = [];
    entities_summary = [];
    purpose = none;
    risk_score = none;
    guardrail_hits = [];
    fail_policy_applied = false;
    note = some (str "unknown direction " ++ repr_of direction);
    stage = none;
  })

-- `round4` is round(x, 4)
module _ {F : Type 0} ⦃fl : Float F⦄ ⦃u : Unicode⦄ (round4 : F → F) where
  module _ {Body W : Type 0} (adapters : List (Adapter Body)) (gateway : Adapter Body) where
    -- `_analyze_input`
    unfoldable pub analyze_input :
        List (Stage F W)
        → Str
        → Str
        → List (Str × Str)
        → Body
        → Config F
        → W
        → Result (Decision F Body) × W
    analyze_input stages session_id path headers body cfg w =
        elim (select_adapter adapters gateway path headers body) [
          | raised ↦ (raised, w)
          | ok adapter ↦ elim (adapter.extract_turns body) [
            | raised ↦ (raised, w)
            | ok turns ↦
                let start =
                  new_context session_id (str "input") adapter.name (resolve (some headers))
                    turns in
                let (answer, w') = run_stages stages start w in
                (
                  answer >>= λ ctx.
                      judge round4 ctx cfg true (same_texts (texts ctx.turns) (texts turns))
                        (adapter.rebuild body ctx.turns),
                  w',
                )
          ]
        ]

    -- `_analyze_output`
    unfoldable pub analyze_output :
        List (Stage F W)
        → Str
        → Str
        → List (Str × Str)
        → Body
        → Config F
        → W
        → Result (Decision F Body) × W
    analyze_output stages session_id path headers body cfg w =
        elim (select_adapter adapters gateway path headers body) [
          | raised ↦ (raised, w)
          | ok adapter ↦ elim (adapter.parse_response body) [
            | raised ↦ (raised, w)
            | ok text ↦
                let turn : Turn = record { role = str "assistant"; text = text } in
                let start =
                  new_context session_id (str "output") adapter.name (resolve (some headers))
                    (turn ∷ []) in
                let (answer, w') = run_stages stages start w in
                (
                  answer >>= λ ctx.
                      let new_text = first_text ctx.turns text in
                      judge round4 ctx cfg false (eq new_text text)
                        (adapter.rebuild_response body new_text),
                  w',
                )
          ]
        ]

    -- `_dispatch`
    unfoldable pub dispatch :
        (Str → Str)
        → List (Stage F W)
        → List (Stage F W)
        → Str
        → Str
        → Str
        → List (Str × Str)
        → Body
        → Config F
        → W
        → Result (Decision F Body) × W
    dispatch repr_of input_stages output_stages session_id direction path headers body cfg w =
        if eq direction (str "input")
        then analyze_input input_stages session_id path headers body cfg w
        else if eq direction (str "output")
        then analyze_output output_stages session_id path headers body cfg w
        else (ok (unknown_direction repr_of direction), w)

    -- `analyze`, up to the log
    unfoldable pub analyze :
        (Str → Str)
        → List (Stage F W)
        → List (Stage F W)
        → Str
        → Str
        → Str
        → List (Str × Str)
        → Body
        → Config F
        → W
        → Decision F Body × W
    analyze repr_of input_stages output_stages session_id direction path headers body cfg w =
        let (answer, w') =
          dispatch repr_of input_stages output_stages session_id direction path headers body cfg
            w in
        (rescue answer (failed cfg), w')
