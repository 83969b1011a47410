-- ===== src/Policy/Reload.antt =====
-- seed_policy.py and engine.py: what `_load_ruleset` finds after a seed.
use dlp_server.Base.{
  ℕ, suc, ◌<◌, ◌≡◌, refl, sym, ap, subst, ◌↔◌, Bool, true, false, Option, none, some, List, [], ◌∷◌,
  ◌++◌, map, filter, length, Result, ok, raised, Member, All-map, All-append, All-map_of, arith,
}
use dlp_server.Base.Str.{Str, str}
use dlp_server.Policy.{Rule, Override}
use dlp_server.Policy.Tables.{
  Version, Tables, Engine, active_version, rules_of, overrides_of, load_ruleset,
}
use dlp_server.Policy.Seed.{
  Spec, deactivate, new_version, seed, truncated, Exit, seeded, commit, unless_active,
  seed_committed, main,
}
use dlp_server.Policy.Seeded.{rule_row, override_row, add_rules, add_overrides}
use dlp_server.Policy.Loaded.{IsScan, IsFresh, FromSpec, OverrideFromSpec, seed-ok}
use dlp_server.Policy.Selected.{active_version-new, rules_of-Member, overrides_of-Member}

one_more :
    (vs : List Version) (new : Version)
    → new.is_active ≡ true
    → length (filter (λ v. v.is_active) (map deactivate vs ++ new ∷ [])) ≡ 1
one_more [] new t = rw t refl
one_more (v ∷ vs) new t = one_more vs new t

-- One version is active: the new one.
one_active :
    (description : Str) (db : Tables)
    → length (filter (λ v. v.is_active) (new_version description db).versions) ≡ 1
unfolding new_version
one_active description db = one_more db.versions _ refl

commit-seeded :
    (db db' : Tables) (r : Result (ℕ × Tables)) (vid : ℕ)
    → commit db r ≡ (seeded vid, db')
    → r ≡ ok (vid, db')
commit-seeded db db' raised vid h = absurd (cc h)
commit-seeded db db' (ok (v, d)) vid h = ground arith

unless_active-seeded :
    (o : Option ℕ) (db db' : Tables) (rest : Exit × Tables) (vid : ℕ)
    → unless_active o db rest ≡ (seeded vid, db')
    → rest ≡ (seeded vid, db')
unless_active-seeded none db db' rest vid h = h
unless_active-seeded (some v) db db' rest vid h = absurd (cc h)

truncated-IsFresh : IsFresh truncated
truncated-IsFresh = record { rules = tt; overrides = tt }

-- What a successful run leaves: the new version is the one that is active, and its ruleset is what
-- the specification says.
abbrev pub Reloads : Engine → Spec → Tables → ℕ → Type 0
Reloads e spec db' vid =
    (active_version e db' ≡ some vid)
    × (length (filter (λ v. v.is_active) db'.versions) ≡ 1)
    × ((r : Rule) → Member r (load_ruleset e db').rules ↔ FromSpec spec r)
    × ((o : Override) → Member o (load_ruleset e db').overrides ↔ OverrideFromSpec spec o)
    × IsFresh db'

↔-trans {ℓ κ μ} : {A : Type ℓ} {B : Type κ} {C : Type μ} → A ↔ B → B ↔ C → A ↔ C
↔-trans p q = (λ a. q.0 (p.0 a), λ c. p.1 (q.1 c))

load_ruleset-active :
    (e : Engine) (db : Tables) (vid : ℕ)
    → active_version e db ≡ some vid
    → load_ruleset e db ≡ record { rules = rules_of e vid db; overrides = overrides_of e vid db }
unfolding load_ruleset
load_ruleset-active e db vid a = rw a refl

-- The new rows belong to the new version.
seeded-IsFresh :
    (description : Str) (db : Tables) (rules : List Rule) (overrides : List Override)
    → IsFresh db
    → IsFresh (
        add_overrides db.next_id overrides
          (add_rules db.next_id rules (new_version description db)))
unfolding new_version
seeded-IsFresh description db rules overrides f = record {
  rules =
      All-append (λ r. r.policy_version_id < suc db.next_id) db.rules
        (map (rule_row db.next_id) rules) (All-map (λ r l. omega (arith, l)) db.rules f.rules)
        (All-map_of (λ r. r.policy_version_id < suc db.next_id) (rule_row db.next_id) rules
          (λ r. omega arith));
  overrides =
      All-append (λ o. o.policy_version_id < suc db.next_id) db.overrides
        (map (override_row db.next_id) overrides)
        (All-map (λ o l. omega (arith, l)) db.overrides f.overrides)
        (All-map_of (λ o. o.policy_version_id < suc db.next_id) (override_row db.next_id) overrides
          (λ o. omega arith));
}

module _ (e : Engine) (scan : IsScan e) where
  seed-Reloads :
      (description : Str) (spec : Spec) (db db' : Tables) (vid : ℕ)
      → IsFresh db
      → seed e description spec db ≡ ok (vid, db')
      → Reloads e spec db' vid
  unfolding new_version
  seed-Reloads description spec db db' vid f h =
      let (rules, overrides, i, q, fr, fo) = seed-ok e description spec db db' vid h in
      let a = active_version-new e scan description db db' (ap (λ (t : Tables). t.versions) q) in
      (
        cc (a, i),
        rw q (one_active description db),
        λ r. rw (load_ruleset-active e db' db.next_id a) (
            ↔-trans (rules_of-Member e scan db db' rules r f (ap (λ (t : Tables). t.rules) q))
              (fr r)),
        λ o. rw (load_ruleset-active e db' db.next_id a) (
            ↔-trans
              (overrides_of-Member e scan db db' overrides o f (ap (λ (t : Tables). t.overrides) q))
              (fo o)),
        subst IsFresh (sym q) (seeded-IsFresh description db rules overrides f),
      )

  -- a run of `main` that ends well
  pub main-Reloads :
      (reset : Bool) (spec : Spec) (db db' : Tables) (vid : ℕ)
      → IsFresh db
      → main e reset spec db ≡ (seeded vid, db')
      → Reloads e spec db' vid
  unfolding main seed_committed
  main-Reloads true spec db db' vid f h =
      seed-Reloads (str "bootstrap") spec truncated db' vid truncated-IsFresh
        (commit-seeded _ db' _ vid h)
  main-Reloads false spec db db' vid f h =
      seed-Reloads (str "bootstrap") spec db db' vid f
        (commit-seeded db db' _ vid (unless_active-seeded (active_version e db) db db' _ vid h))
