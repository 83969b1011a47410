-- ===== src/Audit/Event.antt =====
-- app/logging/events.py: a row of log_events, and what the routes and the streams show of it.
use dlp_server.Base.{ℕ, Bool, true, false, Option, none, some, List, []}
use dlp_server.Base.Str.{Str}
use dlp_server.Models.{Hit, Summary, Reason}

-- the column `reason`: that of the decision, with the session as the client named it
pub record StoredReason (F : Type 0) : Type 0 where
  pub reason : Reason F
  pub session_id_raw : Option Str

-- a row; a UUID is its text, and a time is microseconds
pub record Row (F : Type 0) : Type 0 where
  pub event_id : ℕ
  pub session_id : Str
  pub direction : Str
  pub provider : Str
  pub purpose : Option Str
  pub verdict_action : Str
  pub transforms : Option (List (Str × Str))
  pub entities_summary : Option (List (Summary F))
  pub guardrail_hits : Option (List Hit)
  pub fail_policy_applied : Bool
  pub latency_ms : ℕ
  pub reason : Option (StoredReason F)
  pub created_at : Option ℕ

-- what `serialize_event` returns; `reason` only where it is asked for
pub record Event (F : Type 0) : Type 0 where
  pub event_id : ℕ
  pub session_id : Str
  pub session_id_raw : Option Str
  pub direction : Str
  pub provider : Str
  pub purpose : Option Str
  pub verdict_action : Str
  pub transforms : List (Str × Str)
  pub entities_summary : List (Summary F)
  pub guardrail_hits : List Hit
  pub fail_policy_applied : Bool
  pub latency_ms : ℕ
  pub risk_score : Option F
  pub note : Option Str
  pub created_at : Option Str
  pub reason : Option (Option (StoredReason F))

-- xs or []
abbrev pub or_nil {ℓ} : {A : Type ℓ} → Option (List A) → List A
or_nil none = []
or_nil (some xs) = xs

-- a key of `reason`, which may be missing
abbrev pub from_reason :
    {F A : Type 0} → (StoredReason F → Option A) → Option (StoredReason F) → Option A
from_reason get none = none
from_reason get (some r) = get r

-- f(x) if x else None
abbrev pub shown : (ℕ → Str) → Option ℕ → Option Str
shown iso none = none
shown iso (some t) = some (iso t)

-- `iso` writes a time as an ISO 8601 text of Korea's time zone
module _ {F : Type 0} (iso : ℕ → Str) where
  unfoldable pub serialize_event : Row F → Bool → Event F
  serialize_event row include_reason = record {
    event_id = row.event_id;
    session_id = row.session_id;
    session_id_raw = from_reason (λ r. r.session_id_raw) row.reason;
    direction = row.direction;
    provider = row.provider;
    purpose = row.purpose;
    verdict_action = row.verdict_action;
    transforms = or_nil row.transforms;
    entities_summary = or_nil row.entities_summary;
    guardrail_hits = or_nil row.guardrail_hits;
    fail_policy_applied = row.fail_policy_applied;
    latency_ms = row.latency_ms;
    risk_score = from_reason (λ r. r.reason.risk_score) row.reason;
    note = from_reason (λ r. r.reason.note) row.reason;
    created_at = shown iso row.created_at;
    reason = elim include_reason [ true ↦ some row.reason | false ↦ none ];
  }
