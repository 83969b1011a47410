-- ===== src/Policy/Tables.antt =====
-- The tables of the policy and `_load_ruleset` of app/policy/engine.py.
use dlp_server.Base.{ℕ, ◌==◌, Bool, Option, none, some, List, [], ◌∷◌, map, filter}
use dlp_server.Base.Str.{Str}
use dlp_server.Policy.{Rule, Override, Ruleset}

-- a row of policy_versions
pub record Version : Type 0 where
  pub policy_version_id : ℕ
  pub description : Str
  pub is_active : Bool
  pub created_by : Str

-- a row of policy_rules and one of policy_risk_overrides
pub record RuleRow : Type 0 where
  pub policy_version_id : ℕ
  pub rule : Rule

pub record OverrideRow : Type 0 where
  pub policy_version_id : ℕ
  pub override : Override

-- The tables, and the next value of the sequence of policy_version_id.
pub record Tables : Type 0 where
  pub versions : List Version
  pub rules : List RuleRow
  pub overrides : List OverrideRow
  pub next_id : ℕ

-- What PostgreSQL decides: whether the columns of a row keep their constraints, and in which order
-- a query without ORDER BY gives its rows.
pub record Engine : Type 0 where
  pub accepts_rule : Rule → Bool
  pub accepts_override : Override → Bool
  pub scan_versions : List Version → List Version
  pub scan_rules : List RuleRow → List RuleRow
  pub scan_overrides : List OverrideRow → List OverrideRow

abbrev pub rule_of : ℕ → RuleRow → Bool
rule_of vid r = r.policy_version_id == vid

abbrev pub override_of : ℕ → OverrideRow → Bool
override_of vid o = o.policy_version_id == vid

abbrev pub first_id : List Version → Option ℕ
first_id [] = none
first_id (v ∷ rest) = some v.policy_version_id

module _ (e : Engine) where
  -- SELECT policy_version_id FROM policy_versions WHERE is_active LIMIT 1
  unfoldable pub active_version : Tables → Option ℕ
  active_version db = first_id (filter (λ v. v.is_active) (e.scan_versions db.versions))

  -- the two SELECTs of `_load_ruleset`
  unfoldable pub rules_of : ℕ → Tables → List Rule
  rules_of vid db = map (λ r. r.rule) (filter (rule_of vid) (e.scan_rules db.rules))

  unfoldable pub overrides_of : ℕ → Tables → List Override
  overrides_of vid db =
      map (λ o. o.override) (filter (override_of vid) (e.scan_overrides db.overrides))

  -- `_load_ruleset`, once it knows the active version
  abbrev pub ruleset_of : Option ℕ → Tables → Ruleset
  ruleset_of none db = record { rules = []; overrides = [] }
  ruleset_of (some vid) db = record { rules = rules_of vid db; overrides = overrides_of vid db }

  -- `_load_ruleset`
  unfoldable pub load_ruleset : Tables → Ruleset
  load_ruleset db = ruleset_of (active_version db) db
