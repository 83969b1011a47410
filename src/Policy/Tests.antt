-- ===== src/Policy/Tests.antt =====
-- Runs of engine.py over the fixed-point floats.
use dlp_server.Base.{ℕ, ◌≡◌, refl, false, ◌||◌, none, some, [], ◌∷◌, ◌++◌, map, ok}
use dlp_server.Base.Str.{str, eq, eq_opt}
use dlp_server.Base.Int.{pos}
use dlp_server.Base.Float.{fixed}
use dlp_server.Base.Unicode.{ascii}
use dlp_server.Base.Max.{max_by}
use dlp_server.Models.{Span, Context}
use dlp_server.Purpose.Classifier.{classify}
use dlp_server.Policy.{
  Rule, Override, Ruleset, matches, fires, pick_action, best_override, best_rule, axis_matches,
}
use dlp_server.Policy.Choice.{Chosen, pick_action-Chosen}
use dlp_server.Policy.Stage.{
  purpose_policy_stage, with_purpose, last_user_text, decide_spans, cached_ruleset, note_action,
  decide,
}
use dlp_server.Policy.FailClosed.{
  AllPass, decided, refused, purpose_policy_stage-available, purpose_policy_stage_fail_closed,
}

abbrev keep_name : Rule
keep_name = record {
  purpose = none;
  role = none;
  entity_type = some (str "NAME");
  action = str "mask";
  priority = pos 1;
}

abbrev block_risk : Override
block_risk = record {
  condition_expr = str "risk_score >= 0.8";
  action = str "block";
  priority = pos 10;
}

abbrev rules : Ruleset
rules = record { rules = keep_name ∷ []; overrides = block_risk ∷ [] }

abbrev kim : Span ℕ
kim = record {
  type = str "NAME";
  value = str "kim";
  start = 0;
  end = 3;
  confidence = 900000;
  source = str "dict";
}

-- without the override
abbrev plain_rules : Ruleset
plain_rules = record { rules = keep_name ∷ []; overrides = [] }

abbrev request : Context ℕ
request = record {
  session_id = str "s";
  direction = str "input";
  provider = str "gateway";
  role = none;
  turns = record { role = str "user"; text = str "kim" } ∷ [];
  new_turn_spans = kim ∷ [];
  accumulated = [];
  risk_score = 0;
  injection = record { hit = false; score = 0; pattern = none };
  blocked = false;
  block_reason = none;
  purpose = none;
  purpose_confidence = none;
  span_actions = [];
}

pick_action-Chosen_example :
    Chosen rules
      (fires {F = ℕ} 900000 false)
      (matches (str "unknown") none (str "NAME"))
      (pick_action {F = ℕ} rules (str "unknown") none (str "NAME") 900000 false)
pick_action-Chosen_example = pick_action-Chosen rules (str "unknown") none (str "NAME") 900000 false

purpose_policy_stage-available_example :
    ((purpose_policy_stage [] (ok rules) request none).0.span_actions
      ≡ [] ++ decided (with_purpose [] request) rules (kim ∷ []))
    × ((purpose_policy_stage [] (ok rules) request none).0.blocked
        ≡ (false || refused (with_purpose [] request) rules (kim ∷ [])))
unfolding eq
purpose_policy_stage-available_example =
    purpose_policy_stage-available [] (ok rules) request none rules refl refl

masked : (purpose_policy_stage [] (ok plain_rules) request none).0.blocked ≡ false
unfolding purpose_policy_stage with_purpose classify last_user_text decide_spans cached_ruleset
    note_action decide pick_action best_override best_rule max_by matches axis_matches eq_opt eq
masked = refl

purpose_policy_stage_fail_closed_example :
    AllPass (purpose_policy_stage [] (ok plain_rules) request none).0.span_actions
    × (map (λ p. p.0) (purpose_policy_stage [] (ok plain_rules) request none).0.span_actions
        ≡ kim ∷ [])
unfolding eq
purpose_policy_stage_fail_closed_example =
    purpose_policy_stage_fail_closed [] (ok plain_rules) request none refl refl masked
