-- ===== src/Audit/Stats.antt =====
-- `stats` of app/api.py: the numbers of a window of the audit log.
use dlp_server.Base.{
  ℕ, suc, ◌-◌, ◌*◌, ◌==◌, ltb, leb, Bool, true, false, ◌&&◌, ◌||◌, none, some, List, [], ◌∷◌, ◌++◌,
  map, filter, length, take, if◌then◌else◌,
}
use dlp_server.Base.Str.{Str, str, eq}
use dlp_server.Base.Sort.{sort}
use dlp_server.Base.Unicode.{Unicode}
use dlp_server.Audit.Event.{Row, or_nil}
use dlp_server.Audit.Query.{
  Http, returns, ◌>>=◌, parse_window, stats_top_n, Clock, created_since, holds, time,
}

-- What the query takes from PostgreSQL: averages, the order of texts, and the start of the minute
-- or, with `true`, the hour of an instant. `round1` is round(float(x), 1).
pub record Numbers (F : Type 0) : Type 0 where
  pub avg : List ℕ → F
  pub percentile_95 : List ℕ → F
  pub round1 : F → F
  pub text_le : Str → Str → Bool
  pub date_trunc : Bool → ℕ → ℕ

-- GROUP BY with count(*): each text once, in the order of its first row
unfoldable pub add_to : Str → List (Str × ℕ) → List (Str × ℕ)
add_to s [] = (s, 1) ∷ []
add_to s ((t, n) ∷ groups) =
    let rest = add_to s groups in if eq t s then (t, suc n) ∷ groups else (t, n) ∷ rest

unfoldable pub tally : List Str → List (Str × ℕ) → List (Str × ℕ)
tally [] groups = groups
tally (s ∷ rest) groups = tally rest (add_to s groups)

-- count(DISTINCT …)
abbrev pub distinct : List Str → ℕ
distinct xs = length (tally xs [])

-- ORDER BY 2 DESC, and ORDER BY 2 DESC, 1
abbrev pub larger_first : Str × ℕ → Str × ℕ → Bool
larger_first a b = leb b.1 a.1

abbrev pub larger_then_text : (Str → Str → Bool) → Str × ℕ → Str × ℕ → Bool
larger_then_text text_le a b = ltb b.1 a.1 || (a.1 == b.1 && text_le a.0 b.0)

-- the counts of one bucket
pub record Bucket : Type 0 where
  pub ts : ℕ
  pub allow : ℕ
  pub block : ℕ
  pub transform : ℕ

pub record Stats (F : Type 0) : Type 0 where
  pub window : Str
  pub generated_at : Str
  pub events : ℕ
  pub sessions : ℕ
  pub input : ℕ
  pub output : ℕ
  pub allow : ℕ
  pub block : ℕ
  pub transform : ℕ
  pub guardrail_hits : ℕ
  pub fail_closed : ℕ
  pub latency_avg : F
  pub latency_p95 : F
  pub by_purpose : List (Str × ℕ)
  pub by_entity_type : List (Str × ℕ)
  pub by_action : List (Str × ℕ)
  pub buckets : List (Str × Bucket)

module _ {F : Type 0} where
  -- count(*) FILTER (WHERE …)
  abbrev pub count_if : (Row F → Bool) → List (Row F) → ℕ
  count_if test rows = length (filter test rows)

  abbrev pub is_direction : Str → Row F → Bool
  is_direction s r = eq r.direction s

  abbrev pub is_verdict : Str → Row F → Bool
  is_verdict s r = eq r.verdict_action s

  -- jsonb_typeof(…) = 'array' AND jsonb_array_length(…) > 0
  abbrev pub has_hits : Row F → Bool
  has_hits r = elim (or_nil r.guardrail_hits) [ [] ↦ false | h ∷ hs ↦ true ]

  -- coalesce(purpose, '(none)')
  abbrev pub purpose_text : Row F → Str
  purpose_text r = elim r.purpose [ none ↦ str "(none)" | some p ↦ p ]

  -- jsonb_array_elements over the rows, and the field that is counted
  unfoldable pub entity_types : List (Row F) → List Str
  entity_types [] = []
  entity_types (r ∷ rows) = map (λ s. s.type) (or_nil r.entities_summary) ++ entity_types rows

  unfoldable pub transform_actions : List (Row F) → List Str
  transform_actions [] = []
  transform_actions (r ∷ rows) = map (λ t. t.1) (or_nil r.transforms) ++ transform_actions rows

  -- a row in its bucket, the buckets in the order of time
  abbrev pub counted : Row F → Bucket → Bucket
  counted r b = record b {
    allow = if is_verdict (str "allow") r then suc b.allow else b.allow;
    block = if is_verdict (str "block") r then suc b.block else b.block;
    transform = if is_verdict (str "transform") r then suc b.transform else b.transform;
  }

  unfoldable pub into_bucket : ℕ → Row F → List Bucket → List Bucket
  into_bucket ts r [] = counted r (record { ts = ts; allow = 0; block = 0; transform = 0 }) ∷ []
  into_bucket ts r (b ∷ bs) =
      let rest = into_bucket ts r bs in
      if b.ts == ts
      then counted r b ∷ bs
      else if ltb ts b.ts
      then counted r (record { ts = ts; allow = 0; block = 0; transform = 0 }) ∷ b ∷ bs
      else b ∷ rest

  unfoldable pub buckets_of : (ℕ → ℕ) → List (Row F) → List Bucket → List Bucket
  buckets_of trunc [] bs = bs
  buckets_of trunc (r ∷ rows) bs = buckets_of trunc rows (into_bucket (trunc (time r)) r bs)

module _ {F : Type 0} (c : Clock) (numbers : Numbers F) where
  -- the answer for the rows of the window
  unfoldable pub stats_of : Str → ℕ → Bool → List (Row F) → Stats F
  stats_of window now hourly rows = record {
    window = window;
    generated_at = c.kst_iso now;
    events = length rows;
    sessions = distinct (map (λ r. r.session_id) rows);
    input = count_if (is_direction (str "input")) rows;
    output = count_if (is_direction (str "output")) rows;
    allow = count_if (is_verdict (str "allow")) rows;
    block = count_if (is_verdict (str "block")) rows;
    transform = count_if (is_verdict (str "transform")) rows;
    guardrail_hits = count_if has_hits rows;
    fail_closed = count_if (λ r. r.fail_policy_applied) rows;
    latency_avg = numbers.round1 (numbers.avg (map (λ r. r.latency_ms) rows));
    latency_p95 = numbers.round1 (numbers.percentile_95 (map (λ r. r.latency_ms) rows));
    by_purpose = sort larger_first (tally (map purpose_text rows) []);
    by_entity_type =
        take stats_top_n (sort (larger_then_text numbers.text_le) (tally (entity_types rows) []));
    by_action =
        take stats_top_n
          (sort (larger_then_text numbers.text_le) (tally (transform_actions rows) []));
    buckets = map (λ b. (c.kst_iso b.ts, b)) (buckets_of (numbers.date_trunc hourly) rows []);
  }

  -- `stats` at the instant `now`; timedelta counts in microseconds here
  unfoldable pub stats : ⦃u : Unicode⦄ → List (Row F) → ℕ → Str → Http (Stats F)
  stats table now window = parse_window window >>= λ minutes. returns (
      stats_of window now (ltb 120 minutes)
        (filter (holds (created_since (now - minutes * 60000000))) table))
