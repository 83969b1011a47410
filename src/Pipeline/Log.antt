-- ===== src/Pipeline/Log.antt =====
-- pipeline.py and logging/events.py: the audit event of a decision and where it is written. An
-- INSERT or an append may fail; which of them do is an argument.
use dlp_server.Base.{
  ℕ, ◌≡◌, refl, Bool, true, false, not, Option, none, some, List, ◌∷◌, if◌then◌else◌, Member, inl,
  inr, ◌⊎◌, arith, absurd_test, if_cases,
}
use dlp_server.Base.Str.{Str, str, eq}
use dlp_server.Models.{Hit, Summary, Reason, Decision}

-- `LogEvent` without its time stamp
pub record LogEvent (F : Type 0) : Type 0 where
  pub session_id : Str
  pub direction : Str
  pub provider : Str
  pub verdict_action : Str
  pub latency_ms : ℕ
  pub purpose : Option Str
  pub transforms : List (Str × Str)
  pub entities_summary : List (Summary F)
  pub guardrail_hits : List Hit
  pub fail_policy_applied : Bool
  pub reason : Reason F

-- the rows of log_events and the lines of the file
pub record Logs (F : Type 0) : Type 0 where
  pub pg : List (LogEvent F)
  pub jsonl : List (LogEvent F)

-- whether an INSERT and an append succeed
pub record Sinks : Type 0 where
  pub pg_up : Bool
  pub file_up : Bool

abbrev pub or_unknown : Option Str → Str
or_unknown none = str "unknown"
or_unknown (some p) = p

module _ {F : Type 0} where
  -- `log_event`; the exception of a failing append ends in `_emit_log`
  unfoldable pub log_event : Sinks → LogEvent F → Logs F → Logs F
  log_event sinks event logs = record logs {
    jsonl = if sinks.file_up then event ∷ logs.jsonl else logs.jsonl;
  }

  -- `write_pg`
  unfoldable pub write_pg : LogEvent F → Logs F → Logs F
  write_pg event logs = record logs { pg = event ∷ logs.pg }

  -- `_write_event`
  unfoldable pub write_event : Str → Sinks → LogEvent F → Logs F → Logs F
  write_event log_sink sinks event logs =
      if eq log_sink (str "jsonl")
      then log_event sinks event logs
      else if not sinks.pg_up
      then log_event sinks event logs
      else if eq log_sink (str "both")
      then log_event sinks event (write_pg event logs)
      else write_pg event logs

  -- the event that `_emit_log` makes
  unfoldable pub event_of : {Body : Type 0} → Str → Str → Decision F Body → ℕ → LogEvent F
  event_of session_id direction decision latency_ms = record {
    session_id = session_id;
    direction = direction;
    provider = or_unknown decision.reason_obj.provider;
    verdict_action = decision.action;
    latency_ms = latency_ms;
    purpose = decision.reason_obj.purpose;
    transforms = decision.reason_obj.transforms;
    entities_summary = decision.reason_obj.entities_summary;
    guardrail_hits = decision.reason_obj.guardrail_hits;
    fail_policy_applied = decision.reason_obj.fail_policy_applied;
    reason = decision.reason_obj;
  }

  -- `_emit_log`
  unfoldable pub emit_log :
      {Body : Type 0} → Str → Sinks → Str → Str → Decision F Body → ℕ → Logs F → Logs F
  emit_log log_sink sinks session_id direction decision latency_ms logs =
      write_event log_sink sinks (event_of session_id direction decision latency_ms) logs

  -- an event that is in one of the two places
  abbrev pub IsLogged : LogEvent F → Logs F → Type 0
  IsLogged e logs = Member e logs.pg ⊎ Member e logs.jsonl

  log_event_kept :
      (sinks : Sinks) (event e : LogEvent F) (logs : Logs F)
      → IsLogged e logs
      → IsLogged e (log_event sinks event logs)
  unfolding log_event
  log_event_kept sinks event e logs (inl m) = inl m
  log_event_kept sinks event e logs (inr m) =
      inr (if_cases (λ xs. Member e xs) sinks.file_up (λ _. inr m) (λ _. m))

  log_event_new :
      (sinks : Sinks) (event : LogEvent F) (logs : Logs F)
      → sinks.file_up ≡ true
      → IsLogged event (log_event sinks event logs)
  unfolding log_event
  log_event_new sinks event logs h = inr (
      if_cases (λ xs. Member event xs) sinks.file_up (λ _. inl refl)
        (λ f. absurd (absurd_test h f)))

  write_event_kept :
      (log_sink : Str) (sinks : Sinks) (event e : LogEvent F) (logs : Logs F)
      → IsLogged e logs
      → IsLogged e (write_event log_sink sinks event logs)
  unfolding write_event write_pg
  write_event_kept log_sink sinks event e logs m =
      let in_file = log_event_kept sinks event e logs m in
      let in_table : IsLogged e (write_pg event logs) = elim m [
        | inl a ↦ inl (inr a)
        | inr b ↦ inr b
      ] in
      if_cases (IsLogged e) (eq log_sink (str "jsonl")) (λ _. in_file)
        (λ _.
          if_cases (IsLogged e) (not sinks.pg_up) (λ _. in_file)
            (λ _.
              if_cases (IsLogged e) (eq log_sink (str "both"))
                (λ _. log_event_kept sinks event e (write_pg event logs) in_table) (λ _. in_table)))

  write_event_new :
      (log_sink : Str) (sinks : Sinks) (event : LogEvent F) (logs : Logs F)
      → (sinks.file_up ≡ true) ⊎ ((sinks.pg_up ≡ true) × (eq log_sink (str "jsonl") ≡ false))
      → IsLogged event (write_event log_sink sinks event logs)
  unfolding write_event write_pg
  write_event_new log_sink sinks event logs h =
      let in_table : IsLogged event (write_pg event logs) = inl (inl refl) in
      if_cases (IsLogged event) (eq log_sink (str "jsonl"))
        (λ j. log_event_new sinks event logs (ground arith))
        (λ _.
          if_cases (IsLogged event) (not sinks.pg_up)
            (λ d. log_event_new sinks event logs (ground arith))
            (λ _.
              if_cases (IsLogged event) (eq log_sink (str "both"))
                (λ _. log_event_kept sinks event event (write_pg event logs) in_table)
                (λ _. in_table)))

  -- If a line can be appended, or the row can be inserted and the sink is not the file alone, the
  -- event of a decision, with the decision's action in it, is in the table or in the file after
  -- `_emit_log`; and nothing that was in either is lost, whatever fails.
  pub emit_log_keeps :
      {Body : Type 0} (log_sink : Str) (sinks : Sinks) (session_id direction : Str)
      (decision : Decision F Body) (latency_ms : ℕ) (logs : Logs F)
      → let event = event_of session_id direction decision latency_ms in
        let after = emit_log log_sink sinks session_id direction decision latency_ms logs in
        ((sinks.file_up ≡ true) ⊎ ((sinks.pg_up ≡ true) × (eq log_sink (str "jsonl") ≡ false))
          → Member event after.pg ⊎ Member event after.jsonl)
        × (event.verdict_action ≡ decision.action)
        × ((e : LogEvent F)
            → Member e logs.pg ⊎ Member e logs.jsonl
            → Member e after.pg ⊎ Member e after.jsonl)
  unfolding emit_log event_of
  emit_log_keeps log_sink sinks session_id direction decision latency_ms logs =
      let event = event_of session_id direction decision latency_ms in
      (
        λ h. write_event_new log_sink sinks event logs h,
        refl,
        λ e m. write_event_kept log_sink sinks event e logs m,
      )
