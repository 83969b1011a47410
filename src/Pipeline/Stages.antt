-- ===== src/Pipeline/Stages.antt =====
-- pipeline.py: `_INPUT_STAGES` and `_OUTPUT_STAGES`, with the state that the stages share.
use dlp_server.Base.{if◌then◌else◌, Option, List, [], ◌∷◌, Result, ok, raised}
use dlp_server.Base.Str.{Str, str, eq}
use dlp_server.Base.Float.{Float}
use dlp_server.Base.Unicode.{Unicode}
use dlp_server.Purpose.Classifier.{Pattern}
use dlp_server.Policy.{Ruleset}
use dlp_server.Policy.Stage.{purpose_policy_stage}
use dlp_server.Detect.Layers.{DetectConfig, Layers, pii_detect_stage}
use dlp_server.Detect.Regex
use dlp_server.Guard.Injection.{Rule, injection_guard}
use dlp_server.Guard.Output.{GuardrailConfig, output_guard}
use dlp_server.Session.Store.{SessionState, SessionStore}
use dlp_server.Session.Accumulator.{AccumulatorConfig}
use dlp_server.Session.Stage.{multiturn_stage, remember_purpose_stage, get_last_purpose, on_expire}
use dlp_server.Transform.Stage.{Env, World, transform_stage, detokenize_stage}
use dlp_server.Pipeline.Run.{Stage}

-- what the stages take from the configuration and from outside
pub record Surroundings (F : Type 0) : Type 0 where
  pub injection_rules : List (Rule F)
  pub injection_threshold : Result F
  pub detect_config : Result (DetectConfig F)
  pub layers : Layers F
  pub sha256_hex : Str → Str
  pub accumulator_config : Result (AccumulatorConfig F)
  -- the session store's clock
  pub session_now : F
  pub purpose_rules : List Pattern
  pub rules_load : Result Ruleset
  pub output_rules : List Pattern
  pub guardrail_config : Result (GuardrailConfig F)
  pub regex_patterns : Regex.Patterns
  pub env : Env F

-- the modules' variables: the caches, the session store, and the vault
pub record Shared (F : Type 0) : Type 0 where
  pub threshold_cache : Option F
  pub ruleset_cache : Option Ruleset
  pub store : SessionStore F
  pub world : World

module _ {F : Type 0} ⦃fl : Float F⦄ ⦃u : Unicode⦄ (s : Surroundings F) where
  abbrev pub guard_step : Stage F (Shared F)
  guard_step ctx w =
      let (ctx', cache) =
        injection_guard s.injection_rules s.injection_threshold ctx w.threshold_cache in
      (ok ctx', record w { threshold_cache = cache })

  abbrev pub detect_step : Stage F (Shared F)
  detect_step ctx w = (ok (pii_detect_stage s.detect_config s.layers ctx), w)

  -- the store after a call, with the vault after the hook for what expired in it
  abbrev pub expire : Option (SessionState F) → SessionStore F → Shared F → Shared F
  expire expired store w = record w {
    store = store;
    world = record w.world { db = on_expire s.env.ext s.env.up s.env.now expired w.world.db };
  }

  abbrev pub multiturn_step : Stage F (Shared F)
  multiturn_step ctx w = elim s.accumulator_config [
    | raised ↦ (raised, w)
    | ok cfg ↦
        let (ctx', expired, store) = multiturn_stage s.sha256_hex cfg s.session_now ctx w.store in
        (ok ctx', expire expired store w)
  ]

  abbrev pub policy_step : Stage F (Shared F)
  policy_step ctx w =
      let (ctx', cache) = purpose_policy_stage s.purpose_rules s.rules_load ctx w.ruleset_cache in
      (ok ctx', record w { ruleset_cache = cache })

  abbrev pub remember_step : Stage F (Shared F)
  remember_step ctx w =
      let (ctx', expired, store) = remember_purpose_stage s.session_now ctx w.store in
      (ok ctx', expire expired store w)

  abbrev pub transform_step : Stage F (Shared F)
  transform_step ctx w =
      let (ctx', world) = transform_stage s.env ctx w.world in (ok ctx', record w { world = world })

  abbrev pub output_step : Stage F (Shared F)
  output_step ctx w =
      (ok (output_guard s.output_rules s.guardrail_config (Regex.detect s.regex_patterns) ctx), w)

  -- `detokenize_stage` with its call of get_last_purpose
  abbrev pub restore_step : Stage F (Shared F)
  restore_step ctx w =
      let (purpose, expired, store) = get_last_purpose s.session_now ctx.session_id w.store in
      let w' = expire expired store w in
      let (ctx', world) = detokenize_stage s.env purpose ctx w'.world in
      (ok ctx', record w' { world = world })

  abbrev pub detokenize_step : Stage F (Shared F)
  detokenize_step ctx w = elim ctx.turns [
    | [] ↦ (ok ctx, w)
    | t ∷ rest ↦ if eq ctx.direction (str "output") then restore_step ctx w else (ok ctx, w)
  ]

  -- `_INPUT_STAGES`
  unfoldable pub input_stages : List (Stage F (Shared F))
  input_stages =
      guard_step ∷ detect_step ∷ multiturn_step ∷ policy_step ∷ remember_step ∷ transform_step ∷ []

  -- `_OUTPUT_STAGES`
  unfoldable pub output_stages : List (Stage F (Shared F))
  output_stages = output_step ∷ detokenize_step ∷ []
