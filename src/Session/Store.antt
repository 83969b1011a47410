-- ===== src/Session/Store.antt =====
-- app/context/store.py: the session states and `InMemorySessionStore`. Each method takes its lock
-- for its whole work on the dict, so it is one step; the time is the clock's reading in it. The
-- callback `on_expire` is run after the step, on the states that a method returns for it.
use dlp_server.Base.{ℕ, Bool, Option, none, some, List, [], map, if◌then◌else◌, filter, not}
use dlp_server.Base.Str.{Str, lookup, insert, erase}
use dlp_server.Base.Float.{Float}

-- (type, value_hash)
abbrev pub EntityKey : Type 0
EntityKey = Str × Str

pub record EntityRecord : Type 0 where
  pub type : Str
  pub value_hash : Str
  pub first_turn : ℕ
  pub last_turn : ℕ
  pub count : ℕ

pub record GraphEdge : Type 0 where
  pub node_a : EntityKey
  pub node_b : EntityKey
  pub turn_index : ℕ

-- An entry of `risk_reasons`: what the formatted text says.
pub data RiskReason (F : Type 0) : Type 0 where
  combo : List Str → F → RiskReason F
  combo_cap_applied : F → F → RiskReason F
  repeated : Str → Str → ℕ → F → RiskReason F
  repeat_cap_applied : F → F → RiskReason F
  velocity : ℕ → F → F → RiskReason F

-- The dict `entities` is the list of its records in insertion order; a record has its key.
pub record SessionState (F : Type 0) : Type 0 where
  pub session_id : Str
  pub created_at : F
  pub expires_at : F
  pub turn_count : ℕ
  pub entities : List EntityRecord
  pub graph_edges : List GraphEdge
  pub turn_timestamps : List F
  pub risk_score : F
  pub risk_reasons : List (RiskReason F)
  pub purpose : Option Str

-- `_states` and `_default_ttl_seconds`
pub record SessionStore (F : Type 0) : Type 0 where
  pub states : List (Str × SessionState F)
  pub default_ttl_seconds : F

module _ {F : Type 0} ⦃fl : Float F⦄ where
  -- `is_expired` at a time
  unfoldable pub is_expired : SessionState F → F → Bool
  is_expired state now = fl.le state.expires_at now

  -- `load`: the answer, and the state for which on_expire is called
  unfoldable pub load :
      F → Str → SessionStore F → Option (SessionState F) × Option (SessionState F) × SessionStore F
  load now session_id store = elim (lookup session_id store.states) [
    | none ↦ (none, none, store)
    | some state ↦
        if is_expired state now
        then (none, some state, record store { states = erase session_id store.states })
        else (some state, none, store)
  ]

  -- `save`
  unfoldable pub save : SessionState F → SessionStore F → SessionStore F
  save state store = record store { states = insert state.session_id state store.states }

  -- `delete`
  unfoldable pub delete : Str → SessionStore F → Option (SessionState F) × SessionStore F
  delete session_id store =
      (lookup session_id store.states, record store { states = erase session_id store.states })

  abbrev pub or_default : F → Option F → F
  or_default d none = d
  or_default d (some ttl) = ttl

  -- `new_session`
  unfoldable pub new_session : F → Str → Option F → SessionStore F → SessionState F
  new_session now session_id ttl_seconds store = record {
    session_id = session_id;
    created_at = now;
    expires_at = fl.add now (or_default store.default_ttl_seconds ttl_seconds);
    turn_count = 0;
    entities = [];
    graph_edges = [];
    turn_timestamps = [];
    risk_score = fl.lit 0 0;
    risk_reasons = [];
    purpose = none;
  }

  abbrev pub expires : F → Str × SessionState F → Bool
  expires now (session_id, state) = is_expired state now

  -- `_sweep_once` and `_sweep_once_sync`: the expired states, in the order of the callbacks
  unfoldable pub sweep_once : F → SessionStore F → List (SessionState F) × SessionStore F
  sweep_once now store = (
    map (λ p. p.1) (filter (expires now) store.states),
    record store { states = filter (λ p. not (expires now p)) store.states },
  )
