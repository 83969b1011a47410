-- ===== src/Pipeline/Tests.antt =====
-- Runs of pipeline.py over the fixed-point floats.
use dlp_server.Base.{ℕ, refl, ◌≡◌, true, false, none, [], ◌∷◌, ok, raised, Member, ◌⊎◌}
use dlp_server.Base.Str.{Str, str, eq}
use dlp_server.Base.Float.{fixed}
use dlp_server.Base.Unicode.{ascii}
use dlp_server.Models.{Context, Decision}
use dlp_server.Pipeline.Closed.{IsPassed, analyze-IsPassed}
use dlp_server.Pipeline.Run.{Adapter, Config, Stage}
use dlp_server.Pipeline.Judge.{new_context, judge}
use dlp_server.Pipeline.Analyze.{analyze}
use dlp_server.Pipeline.Outcome.{Judged, judge-Judged}
use dlp_server.Pipeline.Log.{LogEvent, Logs, Sinks, event_of, emit_log, emit_log_keeps}

abbrev config : Config ℕ
config = record { fail_action = str "block"; hard_block = 800000; log_sink = str "pg" }

abbrev request : Context ℕ
request = new_context (str "s") (str "input") (str "gateway") none []

judge-Judged_example :
    Judged
      (λ x. x)
      request
      config
      true
      false
      (ok (str "{}"))
      (judge (λ x. x) request config true false (ok (str "{}")))
judge-Judged_example = judge-Judged (λ x. x) request config true false (ok (str "{}"))

-- a stage that raises
abbrev broken : Stage ℕ ℕ
broken ctx w = (raised, w)

abbrev gateway : Adapter Str
gateway = record {
  name = str "gateway";
  matches = λ path headers body. ok true;
  extract_turns = λ body. ok [];
  rebuild = λ body turns. ok body;
  parse_response = λ body. ok body;
  rebuild_response = λ body text. ok text;
}

abbrev decision : Decision ℕ Str
decision =
    (analyze (λ x. x) (gateway ∷ []) gateway (λ s. s) (broken ∷ []) [] (str "s") (str "input") [] []
      [] config 0).0

abbrev before : Logs ℕ
before = record { pg = []; jsonl = [] }

abbrev no_table : Sinks
no_table = record { pg_up = false; file_up = true }

emit_log_keeps_example :
    ((true ≡ true) ⊎ ((false ≡ true) × (eq (str "pg") (str "jsonl") ≡ false))
      → Member
          (event_of (str "s") (str "input") decision 7)
          (emit_log (str "pg") no_table (str "s") (str "input") decision 7 before).pg
        ⊎ Member
            (event_of (str "s") (str "input") decision 7)
            (emit_log (str "pg") no_table (str "s") (str "input") decision 7 before).jsonl)
    × ((event_of (str "s") (str "input") decision 7).verdict_action ≡ decision.action)
    × ((e : LogEvent ℕ)
        → Member e before.pg ⊎ Member e before.jsonl
        → Member e (emit_log (str "pg") no_table (str "s") (str "input") decision 7 before).pg
          ⊎ Member e (emit_log (str "pg") no_table (str "s") (str "input") decision 7 before).jsonl)
emit_log_keeps_example =
    emit_log_keeps (str "pg") no_table (str "s") (str "input") decision 7 before

analyze-IsPassed_example :
    (decision.action ≡ str "block")
    ⊎ IsPassed (λ x. x) (gateway ∷ []) gateway (broken ∷ []) (str "s") [] [] [] config 0
analyze-IsPassed_example =
    analyze-IsPassed (λ x. x) (gateway ∷ []) gateway (broken ∷ []) (str "s") [] [] [] config 0
      (λ s. s) [] refl
