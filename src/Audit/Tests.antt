-- ===== src/Audit/Tests.antt =====
-- A live stream on a concrete run.
use dlp_server.Base.{
  ℕ, zero, suc, ◌≡◌, refl, true, false, none, some, List, [], ◌∷◌, ◌++◌, length, arith,
}
use dlp_server.Base.Str.{str, eq}
use dlp_server.Audit.Event.{Event}
use dlp_server.Audit.Bus.{
  maxsize, empty_bus, publishes, delivers, subscribe, snapshot, deliver, put_nowait, act, acts, pop,
  unsubscribe, remove,
}
use dlp_server.Audit.Stream.{
  connected, ping, sent, Round, Filters, passes, stream_loop, event_stream,
}
use dlp_server.Audit.Delivered.{event_stream-delivers}
use dlp_server.Audit.Took.{AllStay, events}

abbrev blocked_event : Event ℕ
blocked_event = record {
  event_id = 7;
  session_id = str "s";
  session_id_raw = none;
  direction = str "input";
  provider = str "gateway";
  purpose = none;
  verdict_action = str "block";
  transforms = [];
  entities_summary = [];
  guardrail_hits = [];
  fail_policy_applied = false;
  latency_ms = 3;
  risk_score = none;
  note = none;
  created_at = none;
  reason = none;
}

abbrev blocks_only : Filters
blocks_only = record { direction = none; verdict = some (str "block"); session_id = none }

abbrev busy : Round ℕ
busy = record { gone = false; meanwhile = publishes blocked_event ∷ delivers 0 ∷ [] }

abbrev quiet : Round ℕ
quiet = record { gone = false; meanwhile = [] }

abbrev left : Round ℕ
left = record { gone = true; meanwhile = [] }

-- a round that waits in vain, one with an event, and the end
stream_run :
    (event_stream blocks_only (quiet ∷ busy ∷ left ∷ busy ∷ []) (empty_bus (Event ℕ))).0
    ≡ connected ∷ ping ∷ sent blocked_event ∷ []
unfolding event_stream stream_loop subscribe unsubscribe remove act acts pop snapshot deliver
    put_nowait maxsize passes eq
stream_run = refl

quiet_rounds : ℕ → List (Round ℕ)
quiet_rounds zero = []
quiet_rounds (suc n) = quiet ∷ quiet_rounds n

quiet_rounds-AllStay : (n : ℕ) → AllStay (quiet_rounds n)
unfolding quiet_rounds
quiet_rounds-AllStay zero = tt
quiet_rounds-AllStay (suc n) = (refl, quiet_rounds-AllStay n)

length-quiet_rounds : (n : ℕ) → length (quiet_rounds n) ≡ n
unfolding quiet_rounds
length-quiet_rounds zero = refl
length-quiet_rounds (suc n) = omega (arith, length-quiet_rounds n)

event_stream-delivers_example :
    (later : List (Event ℕ)) × (events
        (event_stream blocks_only ((busy ∷ []) ++ quiet_rounds 1000) (empty_bus (Event ℕ))).0
      ≡ blocked_event ∷ later)
unfolding subscribe act acts pop snapshot deliver put_nowait maxsize passes eq
event_stream-delivers_example =
    event_stream-delivers blocks_only (busy ∷ []) (quiet_rounds 1000) (empty_bus (Event ℕ))
      (refl, tt) (quiet_rounds-AllStay 1000) (omega (arith, length-quiet_rounds 1000))
