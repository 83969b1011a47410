-- ===== src/Session/Accumulator.antt =====
-- app/context/accumulator.py: a turn's spans are entered into the session, and the risk score is
-- computed anew from the entities of the window.
use mathlib.Core.List.{reverse}
use dlp_server.Base.{
  ℕ, zero, suc, ◌+◌, ◌-◌, Bool, true, ◌&&◌, ◌||◌, Option, none, some, List, [], ◌∷◌, ◌++◌, map,
  if◌then◌else◌, ltb, leb, length, filter, take,
}
use dlp_server.Base.Str.{Str, str, eq, contains}
use dlp_server.Base.Float.{Float, min_of}
use dlp_server.Models.{Span}
use dlp_server.Session.Store.{
  EntityKey, EntityRecord, GraphEdge, SessionState, RiskReason, combo, combo_cap_applied, repeated,
  repeat_cap_applied, velocity,
}

pub record AccumulatorConfig (F : Type 0) : Type 0 where
  pub window_size_turns : ℕ
  pub combo_cap : F
  pub repeat_weight : F
  pub repeat_cap : F
  -- each combination, its types in order, with its weight
  pub combo_weights : List (List Str × F)
  -- (least turns, most seconds, weight)
  pub velocity_thresholds : List (ℕ × F × F)

-- `entities.get(key)` and the update of an entry; a new entry stands last
abbrev pub has_key : EntityKey → EntityRecord → Bool
has_key (type, value_hash) r = eq r.type type && eq r.value_hash value_hash

abbrev pub touch : ℕ → EntityRecord → EntityRecord
touch turn_index r = record r { last_turn = turn_index; count = suc r.count }

abbrev pub first_seen : EntityKey → ℕ → EntityRecord
first_seen (type, value_hash) turn_index = record {
  type = type;
  value_hash = value_hash;
  first_turn = turn_index;
  last_turn = turn_index;
  count = 1;
}

-- one round of `_register_spans`
unfoldable pub register : EntityKey → ℕ → List EntityRecord → List EntityRecord
register key turn_index [] = first_seen key turn_index ∷ []
register key turn_index (r ∷ rest) =
    let later = register key turn_index rest in
    if has_key key r then touch turn_index r ∷ rest else r ∷ later

module _ (sha256_hex : Str → Str) where
  -- `hash_value`
  unfoldable pub hash_value : Str → Str
  hash_value value = take 16 (sha256_hex value)

  -- `_register_spans`
  unfoldable pub register_spans :
      {F : Type 0} → List (Span F) → ℕ → List EntityRecord → List EntityRecord
  register_spans [] turn_index entities = entities
  register_spans (s ∷ rest) turn_index entities =
      register_spans rest turn_index (register (s.type, hash_value s.value) turn_index entities)

-- `_active_nodes`: last_turn >= turn_index - window_size_turns + 1
unfoldable pub active_nodes : ℕ → ℕ → List EntityRecord → List EntityRecord
active_nodes window turn_index entities =
    filter (λ r. leb (turn_index + 1) (r.last_turn + window)) entities

abbrev pub key_of : EntityRecord → EntityKey
key_of r = (r.type, r.value_hash)

-- `_build_edges`
unfoldable pub build_edges : ℕ → List EntityRecord → List GraphEdge
build_edges turn_index [] = []
build_edges turn_index (a ∷ rest) =
    map (λ b. record { node_a = key_of a; node_b = key_of b; turn_index = turn_index }) rest
    ++ build_edges turn_index rest

-- combo.issubset(active_types)
unfoldable pub is_subset : List Str → List EntityRecord → Bool
is_subset [] nodes = true
is_subset (t ∷ rest) nodes =
    contains (map (λ (r : EntityRecord). r.type) nodes) t && is_subset rest nodes

-- timestamps[-n]; timestamps[-0] is the first
unfoldable pub from_end : {F : Type 0} → ℕ → List F → Option F
from_end zero [] = none
from_end zero (x ∷ xs) = some x
from_end (suc n) xs = nth n (reverse xs)
  where
    nth : {F : Type 0} → ℕ → List F → Option F
    nth i [] = none
    nth zero (x ∷ rest) = some x
    nth (suc i) (x ∷ rest) = nth i rest

module _ {F : Type 0} ⦃fl : Float F⦄ where
  -- a total under its cap, with the reason that a cap leaves
  unfoldable pub capped :
      F → F → (F → F → RiskReason F) → List (RiskReason F) → F × List (RiskReason F)
  capped total cap why reasons =
      let c = min_of total cap in
      (c, if fl.lt c total then reasons ++ why total c ∷ [] else reasons)

  -- the loop of `_score_combos`
  unfoldable pub sum_combos :
      List (List Str × F) → List EntityRecord → F → List (RiskReason F) → F × List (RiskReason F)
  sum_combos [] nodes total reasons = (total, reasons)
  sum_combos ((types, weight) ∷ rest) nodes total reasons =
      let present = is_subset types nodes in
      sum_combos rest nodes (if present then fl.add total weight else total)
        (if present then reasons ++ combo types weight ∷ [] else reasons)

  -- `_score_combos`
  unfoldable pub score_combos : AccumulatorConfig F → List EntityRecord → F × List (RiskReason F)
  score_combos cfg nodes =
      let (total, reasons) = sum_combos cfg.combo_weights nodes (fl.lit 0 0) [] in
      capped total cfg.combo_cap combo_cap_applied reasons

  -- the loop of `_score_repeats`: the first two mentions count nothing
  unfoldable pub sum_repeats :
      F → List EntityRecord → F → List (RiskReason F) → F × List (RiskReason F)
  sum_repeats weight [] total reasons = (total, reasons)
  sum_repeats weight (r ∷ rest) total reasons =
      let extra = r.count - 2 in
      let delta = fl.mul (fl.lit extra 0) weight in
      sum_repeats weight rest (if ltb 0 extra then fl.add total delta else total) (
        if ltb 0 extra then reasons ++ repeated r.type r.value_hash r.count delta ∷ [] else reasons)

  -- `_score_repeats`
  unfoldable pub score_repeats : AccumulatorConfig F → List EntityRecord → F × List (RiskReason F)
  score_repeats cfg nodes =
      let (total, reasons) = sum_repeats cfg.repeat_weight nodes (fl.lit 0 0) [] in
      capped total cfg.repeat_cap repeat_cap_applied reasons

  -- the seconds since the turn that was `min_turns` - 1 turns ago, if there were so many
  unfoldable pub elapsed : ℕ → F → List F → ℕ → Option F
  elapsed turn_index now timestamps min_turns =
      if ltb turn_index min_turns || ltb (length timestamps) min_turns
      then none
      else elim (from_end min_turns timestamps) [ none ↦ none | some t ↦ some (fl.sub now t) ]

  -- `_score_velocity`
  unfoldable pub score_velocity :
      List (ℕ × F × F) → ℕ → F → List F → F → List (RiskReason F) → F × List (RiskReason F)
  score_velocity [] turn_index now timestamps total reasons = (total, reasons)
  score_velocity ((min_turns, max_elapsed, weight) ∷ rest) turn_index now timestamps total reasons =
      elim (elapsed turn_index now timestamps min_turns) [
        | none ↦ score_velocity rest turn_index now timestamps total reasons
        | some e ↦
            let quick = fl.le e max_elapsed in
            score_velocity rest turn_index now timestamps
              (if quick then fl.add total weight else total)
              (if quick then reasons ++ velocity min_turns e weight ∷ [] else reasons)
      ]

  -- `accumulate`
  unfoldable pub accumulate :
      (Str → Str) → AccumulatorConfig F → F → List (Span F) → ℕ → SessionState F → SessionState F
  accumulate sha256_hex cfg now spans turn_index state =
      let timestamps = state.turn_timestamps ++ now ∷ [] in
      let entities = register_spans sha256_hex spans turn_index state.entities in
      let nodes = active_nodes cfg.window_size_turns turn_index entities in
      let (combos, why_combos) = score_combos cfg nodes in
      let (repeats, why_repeats) = score_repeats cfg nodes in
      let (speed, why_speed) =
        score_velocity cfg.velocity_thresholds turn_index now timestamps (fl.lit 0 0) [] in
      record state {
        turn_count = if ltb state.turn_count turn_index then turn_index else state.turn_count;
        turn_timestamps = timestamps;
        entities = entities;
        graph_edges = build_edges turn_index nodes;
        risk_score = min_of (fl.lit 1 0) (fl.add (fl.add combos repeats) speed);
        risk_reasons = why_combos ++ (why_repeats ++ why_speed);
      }

  -- DEFAULT_CONFIG
  unfoldable pub default_config : AccumulatorConfig F
  default_config = record {
    window_size_turns = 5;
    combo_cap = fl.lit 8 1;
    repeat_weight = fl.lit 5 2;
    repeat_cap = fl.lit 15 2;
    combo_weights =
        (str "NAME" ∷ str "RRN" ∷ [], fl.lit 25 2)
        ∷ (str "ACCOUNT" ∷ str "NAME" ∷ str "RRN" ∷ [], fl.lit 35 2)
        ∷ (str "ACCOUNT" ∷ str "NAME" ∷ str "PHONE" ∷ [], fl.lit 30 2)
        ∷ (str "ACCOUNT" ∷ str "RRN" ∷ [], fl.lit 20 2)
        ∷ (str "ACCOUNT" ∷ str "PHONE" ∷ str "RRN" ∷ [], fl.lit 35 2)
        ∷ [];
    velocity_thresholds = (3, fl.lit 60 0, fl.lit 5 2) ∷ (5, fl.lit 120 0, fl.lit 10 2) ∷ [];
  }
