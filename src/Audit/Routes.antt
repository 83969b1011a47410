-- ===== src/Audit/Routes.antt =====
-- app/api.py: /events, /events/{session_id}, the head of /events/stream, /vault-access and /health.
use dlp_server.Base.{
  ℕ, ltb, leb, Bool, true, false, Option, none, some, List, [], ◌∷◌, ◌++◌, map, filter, take,
  Result, ok, raised, if◌then◌else◌,
}
use dlp_server.Base.Str.{Str, str, eq, contains}
use dlp_server.Base.Sort.{sort}
use dlp_server.Vault.Rows.{Access}
use dlp_server.Audit.Event.{Row, Event, serialize_event}
use dlp_server.Audit.Query.{
  Http, returns, status, ◌>>=◌, directions, verdicts, events_limit_max, vault_limit_max, min, Clock,
  parse_since, Condition, direction_is, verdict_is, session_is, created_since, newer_first,
  older_first, fetch_events,
}
use dlp_server.Audit.Stream.{Filters}

-- the condition for a parameter that is one of `allowed`, if it is given
abbrev pub one_of : List Str → (Str → Condition) → Option Str → Http (List Condition)
one_of allowed condition none = returns []
one_of allowed condition (some s) =
    if contains allowed s then returns (condition s ∷ []) else status 422

module _ (c : Clock) where
  abbrev pub session_condition : Option Str → List Condition
  session_condition none = []
  session_condition (some s) = session_is (c.coerce_session_uuid s) ∷ []

  abbrev pub since_condition : Option Str → Http (List Condition)
  since_condition none = returns []
  since_condition (some s) = parse_since c s >>= λ t. returns (created_since t ∷ [])

  -- the WHERE clause of /events, its tests in the order of the handler
  unfoldable pub conditions :
      Option Str → Option Str → Option Str → Option Str → Http (List Condition)
  conditions direction verdict session_id since = one_of directions direction_is direction >>= λ ds.
      one_of verdicts verdict_is verdict >>= λ vs.
      since_condition since >>= λ ts. returns (ds ++ (vs ++ (session_condition session_id ++ ts)))

  -- `events_stream` up to the start of the stream
  unfoldable pub stream_filters : Option Str → Option Str → Option Str → Http Filters
  stream_filters direction verdict session_id = one_of directions direction_is direction >>= λ _.
      one_of verdicts verdict_is verdict >>= λ _. returns (record {
        direction = direction;
        verdict = verdict;
        session_id = elim session_id [ none ↦ none | some s ↦ some (c.coerce_session_uuid s) ];
      })

module _ {F : Type 0} (c : Clock) (table : List (Row F)) where
  -- `events`; the framework refuses a limit below 1
  unfoldable pub events :
      ℕ → Option Str → Option Str → Option Str → Option Str → Http (List (Event F))
  events limit direction verdict session_id since =
      if ltb limit 1
      then status 422
      else conditions c direction verdict session_id since >>= λ where_. returns (
          map (λ r. serialize_event c.kst_iso r false)
            (fetch_events where_ newer_first (some (min limit events_limit_max)) table))

  -- `session_timeline`
  unfoldable pub session_timeline : Str → List (Event F)
  session_timeline session_id =
      map (λ r. serialize_event c.kst_iso r true)
        (fetch_events (session_is (c.coerce_session_uuid session_id) ∷ []) older_first none table)

-- a row of token_vault_access_log with its key and its time
pub record AccessRow : Type 0 where
  pub access_id : ℕ
  pub access : Access
  pub accessed_at : ℕ

-- what /vault-access shows of it
pub record ShownAccess : Type 0 where
  pub access_id : ℕ
  pub access : Access
  pub token_id : Str
  pub accessed_at : Str

-- ORDER BY accessed_at DESC
abbrev pub later_first : AccessRow → AccessRow → Bool
later_first a b = leb b.accessed_at a.accessed_at

module _ (c : Clock) (token_text : Option ℕ → Str) where
  abbrev pub show_access : AccessRow → ShownAccess
  show_access r = record {
    access_id = r.access_id;
    access = r.access;
    token_id = token_text r.access.token_id;
    accessed_at = c.kst_iso r.accessed_at;
  }

  -- `vault_access`
  unfoldable pub vault_access : List AccessRow → Str → ℕ → Http (List ShownAccess)
  vault_access table session_id limit =
      if ltb limit 1
      then status 422
      else returns (
          map show_access (
            take (min limit vault_limit_max) (
              sort later_first
                (filter (λ r. eq r.access.session_id (c.coerce_session_uuid session_id)) table))))

-- `health`: the status, and that of the database by whether SELECT 1 raises
unfoldable pub health : Result ℕ → Str × Str
health (ok row) = (str "ok", str "ok")
health raised = (str "ok", str "down")
