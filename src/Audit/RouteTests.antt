-- ===== src/Audit/RouteTests.antt =====
-- The routes on a small table.
use dlp_server.Base.{
  ℕ, ◌≡◌, refl, ◌≤◌, ◌↔◌, ◌⊎◌, true, false, none, some, List, [], ◌∷◌, ◌++◌, map, length, Member,
  All,
}
use dlp_server.Base.Str.{Str, str, eq, contains}
use dlp_server.Base.Sort.{insert, sort, IsSorted}
use dlp_server.Audit.Event.{Row, Event, serialize_event}
use dlp_server.Audit.Query.{
  returns, status, Clock, holds, all_hold, newer_first, fetch_events, events_limit_max,
  parse_window, window_tail, unit_of,
}
use dlp_server.Audit.Routes
use dlp_server.Audit.Routes.{conditions}
use dlp_server.Audit.Meets.{Meets}
use dlp_server.Audit.Newest.{events-Newest}
use dlp_server.Base.Unicode.{ascii, strip, lstrip}

-- a time zone that is that of the times, and names as identifiers
abbrev plain_clock : Clock
plain_clock = record {
  fromisoformat = λ s. none;
  of_kst = λ t. t;
  kst_iso = λ t. str "t";
  coerce_session_uuid = λ s. s;
}

abbrev row_of : ℕ → Str → Row ℕ
row_of n direction = record {
  event_id = n;
  session_id = str "s";
  direction = direction;
  provider = str "gateway";
  purpose = none;
  verdict_action = str "allow";
  transforms = none;
  entities_summary = none;
  guardrail_hits = none;
  fail_policy_applied = false;
  latency_ms = 1;
  reason = none;
  created_at = some n;
}

abbrev small_table : List (Row ℕ)
small_table =
    row_of 1 (str "input")
    ∷ row_of 2 (str "output")
    ∷ row_of 3 (str "input")
    ∷ row_of 4 (str "input")
    ∷ []

abbrev newest_two : List (Event ℕ)
newest_two =
    serialize_event plain_clock.kst_iso (row_of 4 (str "input")) false
    ∷ serialize_event plain_clock.kst_iso (row_of 3 (str "input")) false
    ∷ []

events-Newest_example :
    (rows : List (Row ℕ)) × (rest : List (Row ℕ)) × (newest_two
      ≡ map (λ r. serialize_event plain_clock.kst_iso r false) rows)
    × ((r : Row ℕ)
        → Member r (rows ++ rest)
          ↔ (Member r small_table × Meets plain_clock (some (str "input")) none none none r))
    × IsSorted newer_first rows
    × All (λ r. All (λ q. newer_first r q ≡ true) rest) rows
    × (length rows ≤ 2)
    × ((rest ≡ []) ⊎ (length rows ≡ 2))
unfolding Routes.events conditions contains eq fetch_events sort insert all_hold holds newer_first
    events_limit_max serialize_event
events-Newest_example =
    events-Newest plain_clock small_table 2 (some (str "input")) none none none newest_two refl

two_hours : parse_window (str " 2h") ≡ returns 120
unfolding parse_window window_tail unit_of strip lstrip
two_hours = refl

no_minutes : parse_window (str "0m") ≡ status 422
unfolding parse_window window_tail unit_of strip lstrip
no_minutes = refl
