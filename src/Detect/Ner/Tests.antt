-- ===== src/Detect/Ner/Tests.antt =====
-- The entities of a text as spans, and two threads that ask for the engine.
use dlp_server.Base.{ℕ, ◌≤◌, ◌≡◌, ◌≢◌, refl, none, some, List, [], ◌∷◌, ok, raised}
use dlp_server.Base.Str.{str, eq, lookup}
use dlp_server.Base.Unicode.{ascii, strip, lstrip}
use dlp_server.Policy.Condition.{after}
use dlp_server.Detect.Ner.{
  at_end, particle_at, without_particle, trim_trailing_particle, Entity, entity_spans, spans_of,
  extract,
}
use dlp_server.Detect.Ner.Engine.{
  Settings, waits, holds, builds, leaves, got, State, set, first_test, acquire, found, missing,
  make, return, Reach, start, more,
}
use dlp_server.Detect.Ner.Single.{initial, Reach-SingleEngine}

kim : trim_trailing_particle (str "김하나님의") ≡ str "김하나"
unfolding trim_trailing_particle without_particle particle_at at_end after
kim = refl

only_particle : trim_trailing_particle (str "이가") ≡ str "이"
unfolding trim_trailing_particle without_particle particle_at at_end after
only_particle = refl

-- an entity with a known label, and one with another
abbrev found_entities : List (Entity ℕ)
found_entities =
    record { label = str "회사명"; text = str "가나은"; start = 2; end = 5; score = 8 }
    ∷ record { label = str "x"; text = str "y"; start = 0; end = 1; score = 9 }
    ∷ []

company :
    extract (λ text labels threshold. ok found_entities) 4 (str "a 가나은")
    ≡ record {
      type = str "ORG";
      value = str "가나";
      start = 2;
      end = 4;
      confidence = 8;
      source = str "ner";
    }
      ∷ []
unfolding extract spans_of entity_spans lookup eq trim_trailing_particle without_particle
    particle_at at_end after strip lstrip
company = refl

no_model : extract {F = ℕ} (λ text labels threshold. raised) 4 (str "a") ≡ []
unfolding extract strip lstrip
no_model = refl

abbrev wanted : ℕ → Settings ℕ
wanted i = record { model_name = str "m"; threshold = i }

abbrev both_wait : State ℕ
both_wait = record {
  engine = none;
  made = 0;
  lock = none;
  callers = set (set (initial wanted).callers 0 (waits (wanted 0))) 1 (waits (wanted 1));
}

abbrev made_by_0 : State ℕ
made_by_0 = record {
  engine = some (wanted 0);
  made = 1;
  lock = none;
  callers = set (set (set both_wait.callers 0 (holds (wanted 0))) 0 (builds (wanted 0))) 0 leaves;
}

abbrev both_got : State ℕ
both_got = record {
  engine = some (wanted 0);
  made = 1;
  lock = none;
  callers =
      set
        (set (set (set made_by_0.callers 1 (holds (wanted 1))) 1 leaves) 0 (got (some (wanted 0))))
        1 (got (some (wanted 0)));
}

Reach-both_got : Reach (initial wanted) both_got
Reach-both_got =
    more 1
      (more 0
        (more 1
          (more 1
            (more 0
              (more 0
                (more 0
                  (more 1 (more 0 start (first_test (wanted 0) refl refl))
                    (first_test (wanted 1) refl refl))
                  (acquire (wanted 0) refl refl refl))
                (missing (wanted 0) refl refl refl))
              (make (wanted 0) refl refl))
            (acquire (wanted 1) refl refl refl))
          (found (wanted 1) (wanted 0) refl refl refl))
        (return refl refl))
      (return refl refl)

Reach-SingleEngine_example :
    (both_got.made ≤ 1) × (some (wanted 0) ≡ some (wanted 0)) × (some (wanted 0) ≢ none)
Reach-SingleEngine_example =
    Reach-SingleEngine wanted both_got 0 1 (some (wanted 0)) (some (wanted 0)) Reach-both_got refl
      refl
