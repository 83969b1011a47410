-- ===== src/Pipeline/Runs.antt =====
-- A run of the stages on a request, over the fixed-point floats.
use dlp_server.Base.{ℕ, ◌≡◌, refl, true, none, some, [], ◌∷◌, Result, ok, raised}
use dlp_server.Base.Str.{str, eq, eq_opt, lookup}
use dlp_server.Base.Int.{pos}
use dlp_server.Base.Max.{max_by}
use dlp_server.Base.Float.{fixed}
use dlp_server.Base.Unicode.{ascii}
use dlp_server.Models.{Span, Context}
use dlp_server.Policy.{Rule, pick_action, best_override, best_rule, matches, axis_matches}
use dlp_server.Policy.Stage.{
  purpose_policy_stage, with_purpose, last_user_text, decide_spans, cached_ruleset, note_action,
  decide,
}
use dlp_server.Purpose.Classifier.{classify}
use dlp_server.Detect.Layers.{
  pii_detect_stage, layer_names, detect, run_layers, active_layers, enabled, merge_kwargs,
}
use dlp_server.Detect.Merge
use dlp_server.Detect.Merge.{
  merge_spans, cluster_overlapping, sweep_ordered, sweep, resolve_cluster, canonical, key_lt,
  agreeing_sources, boosted, source_priority, passes_min_confidence, default_min_confidence,
  effective_thresholds,
}
use dlp_server.Base.Sort
use dlp_server.Guard.Injection.{
  injection_guard, note_verdict, scan, threshold, engine_scan, best_of,
}
use dlp_server.Session.Accumulator.{default_config}
use dlp_server.Session.Stage.{multiturn_stage, remember_purpose_stage}
use dlp_server.Transform.Stage.{
  Env, transform_stage, transform_text, split_last, render_all, render,
}
use dlp_server.Transform.Carried.{Carried}
use dlp_server.Transform.Mask.{mask, mask_middle}
use dlp_server.Transform.Splice.{replace_spans, splice_all, splice}
use dlp_server.Vault.Samples.{plain, empty}
use dlp_server.Pipeline.Judge.{new_context}
use dlp_server.Pipeline.Run.{run_stages}
use dlp_server.Pipeline.Stages.{Surroundings, Shared, input_stages}

abbrev env : Env ℕ
env = record {
  up = true;
  now = 0;
  ext = plain;
  vault_ttl_sec = 600;
  nonce = λ i. [];
  draw = λ i. 0;
  year = 2026;
  amounts = record { parse_float = λ t. none; divide = λ a b. a; grouped = λ a. [] };
}

abbrev kim : Span ℕ
kim = record {
  type = str "NAME";
  value = str "kim";
  start = 3;
  end = 6;
  confidence = 900000;
  source = str "dict";
}

abbrev mask_names : Rule
mask_names = record {
  purpose = none;
  role = none;
  entity_type = some (str "NAME");
  action = str "mask";
  priority = pos 1;
}

abbrev around : Surroundings ℕ
around = record {
  injection_rules = [];
  injection_threshold = ok 700000;
  detect_config = raised;
  layers = (str "dict", λ t. ok (kim ∷ [])) ∷ [];
  sha256_hex = λ t. t;
  accumulator_config = ok default_config;
  session_now = 0;
  purpose_rules = [];
  rules_load = ok (record { rules = mask_names ∷ []; overrides = [] });
  output_rules = [];
  guardrail_config = raised;
  regex_patterns = record {
    rrn = λ t. [];
    card = λ t. [];
    bizno = λ t. [];
    phone = λ t. [];
    email = λ t. [];
    account = λ t. [];
  };
  env = env;
}

abbrev shared : Shared ℕ
shared = record {
  threshold_cache = none;
  ruleset_cache = none;
  store = record { states = []; default_ttl_seconds = 1800000000 };
  world = record { db = empty; draws = 0 };
}

abbrev request : Context ℕ
request =
    new_context (str "s") (str "input") (str "gateway") none
      (record { role = str "user"; text = str "hi kim" } ∷ [])

abbrev or_request : Result (Context ℕ) → Context ℕ
or_request (ok c) = c
or_request raised = request

abbrev final : Context ℕ
final = or_request (run_stages (input_stages around) request shared).0

masked : final.turns ≡ record { role = str "user"; text = str "hi k*m" } ∷ []
unfolding run_stages input_stages new_context injection_guard note_verdict last_user_text scan
    threshold engine_scan best_of eq pii_detect_stage detect run_layers active_layers enabled
    merge_kwargs merge_spans cluster_overlapping sweep_ordered sweep resolve_cluster canonical
    key_lt Merge.distinct agreeing_sources boosted source_priority passes_min_confidence
    default_min_confidence effective_thresholds Sort.sort Sort.insert layer_names lookup
    multiturn_stage purpose_policy_stage with_purpose classify decide_spans cached_ruleset
    note_action decide pick_action best_override best_rule max_by matches axis_matches eq_opt
    remember_purpose_stage transform_stage transform_text split_last render_all render mask
    mask_middle replace_spans splice_all splice
masked = refl
