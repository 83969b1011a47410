-- ===== src/Session/Tests.antt =====
-- Runs of the session modules over the fixed-point floats.
use dlp_server.Base.{
  absurd_test, ap, ◌≢◌, All, Member, ℕ, List, inl, inr, ◌+◌, ◌≡◌, refl, true, false, none, some, [],
  ◌∷◌,
}
use dlp_server.Base.Str.{Str, str, eq, lookup}
use dlp_server.Base.Float.{fixed}
use dlp_server.Models.{Span, Context}
use dlp_server.Session.Store.{SessionState, SessionStore, is_expired, load, save, sweep_once}
use dlp_server.Session.Accumulator.{register_spans}
use dlp_server.Session.Stage.{open_session, remember_purpose_stage, get_last_purpose}
use dlp_server.Session.Expiry.{load-save, sweep_once_exact}
use dlp_server.Session.Remembered.{Act, loads, saves, sweeps, after_acts, get_last_purpose-remember}
use dlp_server.Session.History.{count_of, first_turn_of, mentions, register_spans_counts}

abbrev digest : Str → Str
digest s = s

abbrev empty : SessionStore ℕ
empty = record { states = []; default_ttl_seconds = 1800000000 }

abbrev state : SessionState ℕ
state = record {
  session_id = str "s";
  created_at = 0;
  expires_at = 100;
  turn_count = 1;
  entities =
      record { type = str "NAME"; value_hash = str "kim"; first_turn = 1; last_turn = 1; count = 1 }
      ∷ [];
  graph_edges = [];
  turn_timestamps = 0 ∷ [];
  risk_score = 0;
  risk_reasons = [];
  purpose = none;
}

abbrev store : SessionStore ℕ
store = record empty { states = (str "s", state) ∷ [] }

abbrev kim : Span ℕ
kim = record {
  type = str "NAME";
  value = str "kim";
  start = 0;
  end = 3;
  confidence = 900000;
  source = str "dict";
}

abbrev request : Context ℕ
request = record {
  session_id = str "s";
  direction = str "input";
  provider = str "gateway";
  role = none;
  turns = [];
  new_turn_spans = [];
  accumulated = [];
  risk_score = 0;
  injection = record { hit = false; score = 0; pattern = none };
  blocked = false;
  block_reason = none;
  purpose = some (str "consult");
  purpose_confidence = none;
  span_actions = [];
}

load-save_example :
    (is_expired state 100 ≡ false
      → load 100 (str "s") (save state empty) ≡ (some state, none, save state empty))
    × (is_expired state 100 ≡ true
        → ((load 100 (str "s") (save state empty)).0 ≡ none)
          × ((load 100 (str "s") (save state empty)).1 ≡ some state)
          × (load 200 (str "s") (load 100 (str "s") (save state empty)).2
              ≡ (none, none, (load 100 (str "s") (save state empty)).2)))
load-save_example = load-save 100 200 state empty

-- another session is saved and loaded, the session is loaded, and the store is swept
abbrev between : List (Act ℕ)
between =
    saves (record state { session_id = str "t" })
    ∷ loads 20 (str "t")
    ∷ loads 30 (str "s")
    ∷ sweeps 40
    ∷ []

apart : str "t" ≢ str "s"
unfolding eq
apart e = absurd_test refl (ap (λ l. eq l (str "t")) e)

get_last_purpose-remember_example :
    (get_last_purpose 50
      (str "s")
      (after_acts between (remember_purpose_stage 10 request store).2)).0
    ≡ some (str "consult")
unfolding open_session load lookup eq is_expired
get_last_purpose-remember_example =
    get_last_purpose-remember 10 50 request store (str "consult") between (refl, tt) refl refl
      (apart, (inl apart, (inr refl, (refl, tt)))) refl

sweep_once_exact_example :
    let (expired, store') = sweep_once 100 store in
    All (λ p. is_expired p.1 100 ≡ false) store'.states
    × All (λ r. is_expired r 100 ≡ true) expired
    × All (λ p. is_expired p.1 100 ≡ true → Member p.1 expired) store.states
    × All (λ p. is_expired p.1 100 ≡ false → Member p store'.states) store.states
sweep_once_exact_example = sweep_once_exact 100 store

register_spans_counts_example :
    (count_of (str "NAME", str "kim") (register_spans digest (kim ∷ kim ∷ []) 2 state.entities)
      ≡ count_of (str "NAME", str "kim") state.entities
        + mentions digest (str "NAME", str "kim") (kim ∷ kim ∷ []))
    × ((n : ℕ)
        → first_turn_of (str "NAME", str "kim") state.entities ≡ some n
        → first_turn_of
            (str "NAME", str "kim")
            (register_spans digest (kim ∷ kim ∷ []) 2 state.entities)
          ≡ some n)
register_spans_counts_example =
    register_spans_counts digest (str "NAME", str "kim") (kim ∷ kim ∷ []) 2 state.entities
