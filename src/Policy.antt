-- ===== src/Policy.antt =====
-- app/policy/engine.py: the rules and overrides of the active policy version decide the action
-- for each detected span.
pub mod Condition
pub mod Choice
pub mod Stage
pub mod FailClosed
pub mod Tables
pub mod Seed
pub mod Seeded
pub mod Loaded
pub mod Selected
pub mod Reload
pub mod Ended
mod SeedTests
mod Tests
use dlp_server.Base.{
  ℕ, ◌+◌, Bool, true, false, ◌&&◌, ◌||◌, Option, none, some, List, [], ◌∷◌, filter, ltb, ◌==◌,
}
use dlp_server.Base.Str.{Str, str, eq, eq_opt}
use dlp_server.Base.Int.{ℤ, ltb_ℤ}
use dlp_server.Base.Max.{max_by}
use dlp_server.Base.Float.{Float}
use dlp_server.Base.Unicode.{Unicode}
use Condition.{eval_condition}

-- `_Rule`: None is a wildcard
pub record Rule : Type 0 where
  pub purpose : Option Str
  pub role : Option Str
  pub entity_type : Option Str
  pub action : Str
  pub priority : ℤ

-- `_Override`
pub record Override : Type 0 where
  pub condition_expr : Str
  pub action : Str
  pub priority : ℤ

pub record Ruleset : Type 0 where
  pub rules : List Rule
  pub overrides : List Override

-- _FALLBACK_ACTION
unfoldable pub fallback_action : Str
fallback_action = str "tokenize"

-- r.purpose is None or r.purpose == purpose, for any of the three axes
unfoldable pub axis_matches : Option Str → Option Str → Bool
axis_matches none value = true
axis_matches (some p) value = eq_opt (some p) value

unfoldable pub matches : Str → Option Str → Str → Rule → Bool
matches purpose role entity_type r =
    axis_matches r.purpose (some purpose)
    && (axis_matches r.role role && axis_matches r.entity_type (some entity_type))

abbrev pub counts : Option Str → ℕ
counts none = 0
counts (some _) = 1

unfoldable pub specificity : Rule → ℕ
specificity r = counts r.purpose + counts r.role + counts r.entity_type

-- The key (specificity, priority) of `b` is larger than that of `a`.
unfoldable pub rule_lt : Rule → Rule → Bool
rule_lt a b =
    ltb (specificity a) (specificity b)
    || (specificity a == specificity b && ltb_ℤ a.priority b.priority)

abbrev pub override_lt : Override → Override → Bool
override_lt a b = ltb_ℤ a.priority b.priority

unfoldable pub best_rule : List Rule → Str
best_rule [] = fallback_action
best_rule (r ∷ rest) = (max_by rule_lt r rest).action

unfoldable pub best_override : List Override → Str → Str
best_override [] otherwise = otherwise
best_override (o ∷ rest) otherwise = (max_by override_lt o rest).action

module _ {F : Type 0} ⦃fl : Float F⦄ ⦃u : Unicode⦄ where
  abbrev pub fires : F → Bool → Override → Bool
  fires risk_score injection_hit o = eval_condition o.condition_expr risk_score injection_hit

  unfoldable pub pick_action : Ruleset → Str → Option Str → Str → F → Bool → Str
  pick_action rs purpose role entity_type risk_score injection_hit =
      best_override (filter (fires risk_score injection_hit) rs.overrides)
        (best_rule (filter (matches purpose role entity_type) rs.rules))
