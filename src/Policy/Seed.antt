-- ===== src/Policy/Seed.antt =====
-- scripts/seed_policy.py: a new policy version from the specification in policy.yaml.
use dlp_server.Base.{
  ℕ, suc, Bool, true, false, ◌||◌, Option, none, some, List, [], ◌∷◌, ◌++◌, map, Result, ok, raised,
  ◌>>=◌, if◌then◌else◌,
}
use dlp_server.Base.Str.{Str, str, eq, truthy}
use dlp_server.Base.Int.{ℤ, pos, negsuc}
use dlp_server.Policy.{Rule, Override}
use dlp_server.Policy.Tables.{Version, Tables, Engine, active_version}

-- What yaml.safe_load gives for policy.yaml, its texts and ints. A key that is missing is `none`,
-- and so is a null where the code treats it alike; a null for `rules`, `risk_overrides` or
-- `priority`, at which the code raises, is left out.
pub record SpecRule : Type 0 where
  pub purpose : Option Str
  pub role : Option Str
  pub entity : Option Str
  pub action : Option Str
  pub priority : Option ℤ

pub record SpecOverride : Type 0 where
  pub when : Option Str
  pub action : Option Str
  pub priority : Option ℤ

pub record Spec : Type 0 where
  pub rules : List SpecRule
  pub default_action : Option Str
  pub risk_overrides : List SpecOverride

-- _WILDCARD and `_norm`
unfoldable pub norm : Option Str → Option Str
norm none = none
norm (some s) = if eq s [] || eq s (str "*") then none else some s

-- x["k"] raises where the key is missing; int(x.get("priority", d))
abbrev pub need : Option Str → Result Str
need none = raised
need (some s) = ok s

abbrev pub or_default : ℤ → Option ℤ → ℤ
or_default d none = d
or_default d (some n) = n

-- the columns of the row for a rule, and of that for an override
unfoldable pub rule_columns : SpecRule → Result Rule
rule_columns r = need r.action >>= λ action. ok (record {
  purpose = norm r.purpose;
  role = norm r.role;
  entity_type = norm r.entity;
  action = action;
  priority = or_default (pos 0) r.priority;
})

unfoldable pub override_columns : SpecOverride → Result Override
override_columns o = need o.when >>= λ when. need o.action >>= λ action.
    ok (record {
      condition_expr = when;
      action = action;
      priority = or_default (pos 100) o.priority;
    })

-- purpose, role and entity_type NULL, priority -1
abbrev pub default_rule : Str → Rule
default_rule action = record {
  purpose = none;
  role = none;
  entity_type = none;
  action = action;
  priority = negsuc 0;
}

-- `for x in xs:` with an INSERT of the columns of `x`
unfoldable pub insert_all :
    {S R : Type 0} → (S → Result R) → (R → Tables → Result Tables) → List S → Tables → Result Tables
insert_all columns insert [] db = ok db
insert_all columns insert (x ∷ xs) db =
    columns x >>= λ row. insert row db >>= λ db'. insert_all columns insert xs db'

module _ (e : Engine) where
  -- an INSERT into policy_rules, and one into policy_risk_overrides
  unfoldable pub insert_rule : ℕ → Rule → Tables → Result Tables
  insert_rule vid r db =
      if e.accepts_rule r
      then ok (record db { rules = db.rules ++ record { policy_version_id = vid; rule = r } ∷ [] })
      else raised

  unfoldable pub insert_override : ℕ → Override → Tables → Result Tables
  insert_override vid o db =
      if e.accepts_override o
      then ok (record db {
        overrides = db.overrides ++ record { policy_version_id = vid; override = o } ∷ [];
      })
      else raised

  -- the loops over the rules and over the overrides
  unfoldable pub insert_rules : ℕ → List SpecRule → Tables → Result Tables
  insert_rules vid rs db = insert_all rule_columns (insert_rule vid) rs db

  unfoldable pub insert_overrides : ℕ → List SpecOverride → Tables → Result Tables
  insert_overrides vid os db = insert_all override_columns (insert_override vid) os db

  -- `if default_action:`
  unfoldable pub insert_default : ℕ → Option Str → Tables → Result Tables
  insert_default vid none db = ok db
  insert_default vid (some action) db =
      if truthy action then insert_rule vid (default_rule action) db else ok db

-- UPDATE policy_versions SET is_active = false WHERE is_active
abbrev pub deactivate : Version → Version
deactivate v = record v { is_active = false }

-- the new version, active, with the next id
unfoldable pub new_version : Str → Tables → Tables
new_version description db = record db {
  versions =
      map deactivate db.versions
      ++ record {
        policy_version_id = db.next_id;
        description = description;
        is_active = true;
        created_by = str "seed_policy.py";
      }
        ∷ [];
  next_id = suc db.next_id;
}

module _ (e : Engine) where
  -- the statements of `seed`, in one transaction: what raises leaves no tables
  unfoldable pub seed : Str → Spec → Tables → Result (ℕ × Tables)
  seed description spec db = do
    let vid = db.next_id
    with_rules ← insert_rules e vid spec.rules (new_version description db)
    with_default ← insert_default e vid spec.default_action with_rules
    with_overrides ← insert_overrides e vid spec.risk_overrides with_default
    ok (vid, with_overrides)

-- TRUNCATE … RESTART IDENTITY CASCADE
abbrev pub truncated : Tables
truncated = record { versions = []; rules = []; overrides = []; next_id = 1 }

-- how `main` ends
pub data Exit : Type 0 where
  seeded : ℕ → Exit
  refused : Exit
  failed : Exit

-- The transaction ends: a rollback gives no id back to the sequence.
abbrev pub commit : Tables → Result (ℕ × Tables) → Exit × Tables
commit db raised = (failed, record db { next_id = suc db.next_id })
commit db (ok (vid, db')) = (seeded vid, db')

-- `main` refuses where a version is active
abbrev pub unless_active : Option ℕ → Tables → Exit × Tables → Exit × Tables
unless_active none db otherwise = otherwise
unless_active (some vid) db otherwise = (refused, db)

module _ (e : Engine) where
  -- the rest of `main` on the tables that are committed before it
  unfoldable pub seed_committed : Spec → Tables → Exit × Tables
  seed_committed spec db = commit db (seed e (str "bootstrap") spec db)

  -- `main` after the specification is read and the connection is open
  unfoldable pub main : Bool → Spec → Tables → Exit × Tables
  main true spec db = seed_committed spec truncated
  main false spec db = unless_active (active_version e db) db (seed_committed spec db)
