-- ===== src/Audit/Query.antt =====
-- app/api.py: the parameters of the routes and the query over log_events.
use dlp_server.Base.{
  ℕ, ◌+◌, ◌*◌, ◌==◌, ltb, leb, Bool, true, false, ◌&&◌, ◌||◌, Option, none, some, List, [], ◌∷◌,
  filter, take, if◌then◌else◌,
}
use dlp_server.Base.Str.{Str, str, eq}
use dlp_server.Base.Sort.{sort}
use dlp_server.Base.Unicode.{Unicode, strip}
use dlp_server.Audit.Event.{Row}

-- a handler returns, or raises HTTPException with a status
pub data Http (A : Type 0) : Type 0 where
  returns : A → Http A
  status : ℕ → Http A

infixl 5 ◌>>=◌
abbrev pub ◌>>=◌ : {A B : Type 0} → Http A → (A → Http B) → Http B
returns a >>= f = f a
status n >>= f = status n

-- _DIRECTIONS, _VERDICTS, _EVENTS_LIMIT_MAX, _VAULT_LIMIT_MAX, _STATS_TOP_N
abbrev pub directions : List Str
directions = str "input" ∷ str "output" ∷ []

abbrev pub verdicts : List Str
verdicts = str "allow" ∷ str "block" ∷ str "transform" ∷ []

unfoldable pub events_limit_max : ℕ
events_limit_max = 500

unfoldable pub vault_limit_max : ℕ
vault_limit_max = 500

unfoldable pub stats_top_n : ℕ
stats_top_n = 10

-- min(a, b)
abbrev pub min : ℕ → ℕ → ℕ
min a b = if ltb b a then b else a

-- [mh] to the end: whether it is hours
unfoldable pub unit_of : Str → Option Bool
unit_of [] = none
unit_of (c ∷ []) = if c == b'm' then some false else if c == b'h' then some true else none
unit_of (c ∷ d ∷ s) = none

-- the minutes; none are refused
abbrev pub minutes_of : ℕ → Option Bool → Http ℕ
minutes_of n none = status 422
minutes_of n (some hours) = if n == 0 then status 422 else returns (if hours then n * 60 else n)

module _ ⦃u : Unicode⦄ where
  -- (\d+)([mh]), in full: the digits after the first one, on top of those read so far
  unfoldable pub window_tail : ℕ → Str → Http ℕ
  window_tail n [] = status 422
  window_tail n (c ∷ s) = elim (u.decimal c) [
    | some d ↦ window_tail (n * 10 + d) s
    | none ↦ minutes_of n (unit_of (c ∷ s))
  ]

  abbrev pub window_head : Str → Http ℕ
  window_head [] = status 422
  window_head (c ∷ s) = elim (u.decimal c) [ none ↦ status 422 | some d ↦ window_tail d s ]

  -- `_parse_window`
  unfoldable pub parse_window : Str → Http ℕ
  parse_window window = window_head (strip window)

-- what datetime.fromisoformat reads: an instant, or a time without a zone
pub data Stamp : Type 0 where
  aware : ℕ → Stamp
  naive : ℕ → Stamp

-- What the routes take from the datetime library and from app/ids.py. Instants are microseconds.
pub record Clock : Type 0 where
  pub fromisoformat : Str → Option Stamp
  -- the instant of a time in Korea's zone, and an instant as an ISO 8601 text of that zone
  pub of_kst : ℕ → ℕ
  pub kst_iso : ℕ → Str
  pub coerce_session_uuid : Str → Str

module _ (c : Clock) where
  -- `_parse_since`
  unfoldable pub parse_since : Str → Http ℕ
  parse_since since = elim (c.fromisoformat since) [
    | none ↦ status 422
    | some (aware t) ↦ returns t
    | some (naive t) ↦ returns (c.of_kst t)
  ]

-- a condition of the WHERE clause, with its parameter
pub data Condition : Type 0 where
  direction_is : Str → Condition
  verdict_is : Str → Condition
  session_is : Str → Condition
  created_since : ℕ → Condition

module _ {F : Type 0} where
  -- a comparison with NULL does not hold
  unfoldable pub holds : Condition → Row F → Bool
  holds (direction_is s) r = eq r.direction s
  holds (verdict_is s) r = eq r.verdict_action s
  holds (session_is s) r = eq r.session_id s
  holds (created_since t) r = elim r.created_at [ none ↦ false | some u ↦ leb t u ]

  unfoldable pub all_hold : List Condition → Row F → Bool
  all_hold [] r = true
  all_hold (c ∷ cs) r = holds c r && all_hold cs r

  -- created_at, where it is there; the column is NOT NULL
  abbrev pub time : Row F → ℕ
  time r = elim r.created_at [ none ↦ 0 | some t ↦ t ]

  -- ORDER BY created_at DESC, event_id DESC, and ASC: `a` may stand before `b`
  unfoldable pub newer_first : Row F → Row F → Bool
  newer_first a b = ltb (time b) (time a) || (time a == time b && leb b.event_id a.event_id)

  unfoldable pub older_first : Row F → Row F → Bool
  older_first a b = ltb (time a) (time b) || (time a == time b && leb a.event_id b.event_id)

  -- LIMIT
  abbrev pub limited : Option ℕ → List (Row F) → List (Row F)
  limited none rows = rows
  limited (some n) rows = take n rows

  -- `_fetch_events` on the rows of the table
  unfoldable pub fetch_events :
      List Condition → (Row F → Row F → Bool) → Option ℕ → List (Row F) → List (Row F)
  fetch_events conditions order limit table =
      limited limit (sort order (filter (all_hold conditions) table))
