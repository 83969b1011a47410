-- ===== src/Models.antt =====
-- app/models.py: the contract types that the stages share. `F` is the type of the floats.
use dlp_server.Base.{ℕ, Bool, Option, List}
use dlp_server.Base.Str.{Str}

-- one turn of the conversation
pub record Turn : Type 0 where
  pub role : Str
  pub text : Str

-- a detected piece of personal data
pub record Span (F : Type 0) : Type 0 where
  pub type : Str
  pub value : Str
  pub start : ℕ
  pub end : ℕ
  pub confidence : F
  pub source : Str

pub record InjectionVerdict (F : Type 0) : Type 0 where
  pub hit : Bool
  pub score : F
  pub pattern : Option Str

-- a piece of `guardrail_hits`, a dict whose values are texts or None
abbrev pub Hit : Type 0
Hit = List (Str × Option Str)

pub record Context (F : Type 0) : Type 0 where
  pub session_id : Str
  pub direction : Str
  pub provider : Str
  pub role : Option Str
  pub turns : List Turn
  pub new_turn_spans : List (Span F)
  pub accumulated : List (Str × List (Span F))
  pub risk_score : F
  pub injection : InjectionVerdict F
  pub blocked : Bool
  pub block_reason : Option Hit
  pub purpose : Option Str
  pub purpose_confidence : Option F
  pub span_actions : List (Span F × Str)

-- an entry of `entities_summary`: type, rounded confidence, masked preview
pub record Summary (F : Type 0) : Type 0 where
  pub type : Str
  pub confidence : F
  pub masked_preview : Str

-- `reason_obj`: a key that the dict does not have is `none`, `[]` or `false` here, the values
-- with which `_emit_log` reads it.
pub record Reason (F : Type 0) : Type 0 where
  pub verdict : Option Str
  pub provider : Option Str
  pub transforms : List (Str × Str)
  pub entities_summary : List (Summary F)
  pub purpose : Option Str
  pub risk_score : Option F
  pub guardrail_hits : List Hit
  pub fail_policy_applied : Bool
  pub note : Option Str
  pub stage : Option Str

pub record Decision (F Body : Type 0) : Type 0 where
  pub action : Str
  pub transformed_body : Option Body
  pub reason_obj : Reason F
