-- ===== src/Policy/Ended.antt =====
-- seed_policy.py and engine.py: every way in which a run of the script ends.
use dlp_server.Base.{
  ℕ, suc, ◌≡◌, refl, Bool, true, false, Option, none, some, List, [], ◌∷◌, Result, ok, raised,
  Member, inl,
}
use dlp_server.Base.Str.{str}
use dlp_server.Policy.{Ruleset}
use dlp_server.Policy.Tables.{Tables, Engine, active_version, load_ruleset}
use dlp_server.Policy.Seed.{
  Spec, seed, truncated, Exit, seeded, refused, failed, commit, unless_active, seed_committed, main,
}
use dlp_server.Policy.Loaded.{IsScan, IsFresh}
use dlp_server.Policy.Reload.{Reloads, main-Reloads}

-- the ruleset without rules, with which every entity gets the fallback action
abbrev pub empty_ruleset : Ruleset
empty_ruleset = record { rules = []; overrides = [] }

-- how the tables `db` and those after the run belong together
abbrev pub Ended : Engine → Bool → Spec → Tables → Exit × Tables → Type 0
Ended e reset spec db (seeded vid, db') = Reloads e spec db' vid
Ended e reset spec db (refused, db') =
    (reset ≡ false) × (db' ≡ db) × ((vid : ℕ) × (active_version e db ≡ some vid))
Ended e reset spec db (failed, db') =
    (active_version e db' ≡ none) × (load_ruleset e db' ≡ empty_ruleset)

no_members {ℓ} : {A : Type ℓ} (xs : List A) → ((x : A) → Member x xs → ⊥) → xs ≡ []
no_members [] f = refl
no_members (x ∷ xs) f = absurd (f x (inl refl))

module _ (e : Engine) where
  load_ruleset-none : (db : Tables) → active_version e db ≡ none → load_ruleset e db ≡ empty_ruleset
  unfolding load_ruleset
  load_ruleset-none db h = rw h refl

  -- Nothing is active in tables without versions.
  active_version-none :
      (scan : IsScan e) (db : Tables) → db.versions ≡ [] → active_version e db ≡ none
  unfolding active_version
  active_version-none scan db h =
      rw h (rw (no_members (e.scan_versions []) (λ v m. ((scan.versions v []).0 m).1)) refl)

  same_versions :
      (db : Tables) (n : ℕ)
      → active_version e db ≡ none
      → active_version e (record db { next_id = n }) ≡ none
  unfolding active_version
  same_versions db n h = h

  commit-Ended :
      (reset : Bool) (spec : Spec) (db start : Tables) (r : Result (ℕ × Tables))
      → active_version e start ≡ none
      → ((vid : ℕ) (db' : Tables) → commit start r ≡ (seeded vid, db') → Reloads e spec db' vid)
      → Ended e reset spec db (commit start r)
  commit-Ended reset spec db start raised none_active good =
      let still = same_versions start (suc start.next_id) none_active in
      (still, load_ruleset-none (record start { next_id = suc start.next_id }) still)
  commit-Ended reset spec db start (ok (vid, db')) none_active good = good vid db' refl

  unless_active-Ended :
      (spec : Spec) (db : Tables) (o : Option ℕ) (rest : Exit × Tables)
      → active_version e db ≡ o
      → (o ≡ none → Ended e false spec db rest)
      → Ended e false spec db (unless_active o db rest)
  unless_active-Ended spec db none rest h k = k refl
  unless_active-Ended spec db (some vid) rest h k = (refl, refl, (vid, h))

  -- The ways in which a run of `main` ends, for a database whose queries give the rows of a table
  -- in some order, and without rules or overrides of a version to come. A run that ends well leaves
  -- one active version, the one it reports; `_load_ruleset` then finds exactly the rules and
  -- overrides of the specification, the default rule included, and the tables are fit for another
  -- run. A refused run was without --reset, had an active version and changed nothing. After a run
  -- that failed no version is active, and `_load_ruleset` finds the empty ruleset.
  pub main-Ended :
      (scan : IsScan e) (reset : Bool) (spec : Spec) (db : Tables)
      → IsFresh db
      → Ended e reset spec db (main e reset spec db)
  unfolding main seed_committed
  main-Ended scan true spec db f =
      commit-Ended true spec db truncated (seed e (str "bootstrap") spec truncated)
        (active_version-none scan truncated refl)
        (λ vid db' h. main-Reloads e scan true spec db db' vid f h)
  main-Ended scan false spec db f =
      unless_active-Ended spec db (active_version e db) (seed_committed e spec db) refl
        (λ none_active.
          commit-Ended false spec db db (seed e (str "bootstrap") spec db) none_active
            (λ vid db' h. main-Reloads e scan false spec db db' vid f (rw none_active h)))
