-- ===== src/Guard/Tests.antt =====
-- Runs of the guards over the fixed-point floats.
use dlp_server.Base.{
  ℕ, ◌≡◌, refl, true, false, none, some, List, [], ◌∷◌, Result, ok, raised, All, Member,
}
use dlp_server.Base.Str.{Str, str, eq}
use dlp_server.Base.Float.{fixed, fixed-IsOrdered}
use dlp_server.Base.Unicode.{ascii}
use dlp_server.Models.{Turn, Span, Context}
use dlp_server.Purpose.Classifier.{Pattern, found}
use dlp_server.Guard.Injection.{Rule, matched, engine_scan}
use dlp_server.Guard.Output.{
  GuardrailConfig, output_guard, check_answer, rescan_and_mask, injection_compliance,
}
use dlp_server.Guard.Verdict.{engine_scan_exact}
use dlp_server.Guard.Answer.{Checked, output_guard-Checked}

abbrev never : Rule ℕ
never = record { name = str "never"; search = λ text. raised; score = 950000 }

abbrev ignore_rules : Rule ℕ
ignore_rules = record { name = str "ignore"; search = λ text. ok true; score = 900000 }

abbrev rules : List (Rule ℕ)
rules = never ∷ ignore_rules ∷ []

engine_scan_exact_example :
    All
      (λ r.
        matched r (str "x") ≡ true
        → fixed.le r.score (engine_scan rules (str "x") 700000).score ≡ true)
      rules
    × All
        (λ r.
          matched r (str "x") ≡ true
          → fixed.le 700000 r.score ≡ true
          → (engine_scan rules (str "x") 700000).hit ≡ true)
        rules
    × ((engine_scan rules (str "x") 700000).hit ≡ true
        → (r : Rule ℕ) × Member r rules
          × (matched r (str "x") ≡ true)
          × (fixed.le 700000 r.score ≡ true)
          × ((engine_scan rules (str "x") 700000).pattern ≡ some r.name)
          × ((engine_scan rules (str "x") 700000).score ≡ r.score))
    × ((engine_scan rules (str "x") 700000).hit ≡ false
        → (engine_scan rules (str "x") 700000).pattern ≡ none)
engine_scan_exact_example = engine_scan_exact fixed-IsOrdered rules (str "x") 700000 refl

abbrev answer : Turn
answer = record { role = str "assistant"; text = str "kim" }

abbrev response : Context ℕ
response = record {
  session_id = str "s";
  direction = str "output";
  provider = str "gateway";
  role = none;
  turns = answer ∷ [];
  new_turn_spans = [];
  accumulated = [];
  risk_score = 0;
  injection = record { hit = false; score = 0; pattern = none };
  blocked = false;
  block_reason = none;
  purpose = none;
  purpose_confidence = none;
  span_actions = [];
}

abbrev config : GuardrailConfig ℕ
config = record { output_pii_min_confidence = 500000; output_injection_check = true }

abbrev leak : Pattern
leak = record { name = str "leak"; search = λ text. ok false }

abbrev finds : Str → Result (List (Span ℕ))
finds text = ok (
    record {
      type = str "NAME";
      value = str "kim";
      start = 0;
      end = 3;
      confidence = 900000;
      source = str "regex";
    }
    ∷ [])

unblocked : (output_guard (leak ∷ []) (ok config) finds response).blocked ≡ false
unfolding output_guard check_answer rescan_and_mask injection_compliance found eq
unblocked = refl

output_guard-Checked_example :
    Checked
      (leak ∷ [])
      (ok config)
      finds
      answer
      (output_guard (leak ∷ []) (ok config) finds response).turns
output_guard-Checked_example =
    output_guard-Checked (leak ∷ []) (ok config) finds response answer [] refl refl unblocked
