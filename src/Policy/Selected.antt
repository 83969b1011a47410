-- ===== src/Policy/Selected.antt =====
-- seed_policy.py and engine.py: what the queries of `_load_ruleset` give after a seed.
use dlp_server.Base.{
  ℕ, ◌<◌, ◌≡◌, refl, ap, subst, ◌↔◌, inl, inr, Bool, true, false, some, List, [], ◌∷◌, ◌++◌, map,
  filter, All, Member, Member-filter, Member-filter_of, Member-map, Member-All, All-map, All-map_of,
  arith,
}
use dlp_server.Base.Members.{Member-append, Member-map_inv, Member-all_of}
use dlp_server.Base.Str.{Str, str}
use dlp_server.Policy.{Rule, Override}
use dlp_server.Policy.Tables.{
  Version, RuleRow, OverrideRow, Tables, Engine, rule_of, override_of, first_id, active_version,
  rules_of, overrides_of,
}
use dlp_server.Policy.Seed.{deactivate, new_version}
use dlp_server.Policy.Seeded.{rule_row, override_row}
use dlp_server.Policy.Loaded.{IsScan, IsFresh}

-- A query over the rows of one version gives that version's rows and no others.
module _ {Row R : Type 0} (row : R → Row) (columns : Row → R) (wanted : Row → Bool)
    (scan : List Row → List Row) where
  select-Member :
      (old : List Row) (new : List R) (r : R)
      → ((x : Row) (xs : List Row) → Member x (scan xs) ↔ Member x xs)
      → ((q : R) → columns (row q) ≡ q)
      → ((q : R) → wanted (row q) ≡ true)
      → All (λ x. wanted x ≡ false) old
      → Member r (map columns (filter wanted (scan (old ++ map row new)))) ↔ Member r new
  select-Member old new r law back kept none_old = (
    λ m.
        let (x, n, q) = Member-map_inv columns r _ m in
        let (n', t) = Member-filter wanted x _ n in
        elim ((Member-append x old (map row new)).0 ((law x _).0 n')) [
          | inl o ↦ absurd (cc (t, Member-All (λ z. wanted z ≡ false) x old none_old o))
          | inr k ↦
              let (z, l, p) = Member-map_inv row x new k in
              subst (λ y. Member y new) (cc (q, p, back z)) l
        ],
    λ m.
        subst (λ y. Member y (map columns (filter wanted (scan (old ++ map row new))))) (back r)
          (Member-map columns (row r) (filter wanted (scan (old ++ map row new))) (
            Member-filter_of wanted (row r) (scan (old ++ map row new))
              ((law (row r) (old ++ map row new)).1
                ((Member-append (row r) old (map row new)).1 (inr (Member-map row r new m))))
              (kept r))),
  )

older_rules :
    (vid : ℕ) (rs : List RuleRow)
    → All (λ r. r.policy_version_id < vid) rs
    → All (λ r. rule_of vid r ≡ false) rs
older_rules vid rs h = All-map (λ r l. ground arith) rs h

older_overrides :
    (vid : ℕ) (os : List OverrideRow)
    → All (λ o. o.policy_version_id < vid) os
    → All (λ o. override_of vid o ≡ false) os
older_overrides vid os h = All-map (λ o l. ground arith) os h

-- After the update only the new version is active.
deactivated : (vs : List Version) → All (λ v. v.is_active ≡ false) (map deactivate vs)
deactivated vs = All-map_of (λ v. v.is_active ≡ false) deactivate vs (λ v. refl)

first_id-some :
    (k : ℕ) (v : Version) (kept : List Version)
    → Member v kept
    → All (λ x. x.policy_version_id ≡ k) kept
    → first_id kept ≡ some k
first_id-some k v [] m h = absurd m.1
first_id-some k v (x ∷ rest) m h = ap (λ (n : ℕ). some n) h.0

module _ (e : Engine) (scan : IsScan e) where
  pub active_version-new :
      (description : Str) (db db' : Tables)
      → db'.versions ≡ (new_version description db).versions
      → active_version e db' ≡ some db.next_id
  unfolding active_version new_version
  active_version-new description db db' h =
      let new : Version = record {
        policy_version_id = db.next_id;
        description = description;
        is_active = true;
        created_by = str "seed_policy.py";
      } in
      let vs : List Version = map deactivate db.versions ++ new ∷ [] in
      rw h (
        first_id-some db.next_id new (filter (λ v. v.is_active) (e.scan_versions vs))
          (Member-filter_of (λ v. v.is_active) new (e.scan_versions vs)
            ((scan.versions new vs).1
              ((Member-append new (map deactivate db.versions) (new ∷ [])).1 (inr (inl refl))))
            refl)
          (Member-all_of (λ (x : Version). x.policy_version_id ≡ db.next_id)
            (filter (λ v. v.is_active) (e.scan_versions vs))
            λ v m.
              let (n, t) = Member-filter (λ v. v.is_active) v (e.scan_versions vs) m in
              elim ((Member-append v (map deactivate db.versions) (new ∷ [])).0
                ((scan.versions v vs).0 n)) [
                  | inl o ↦ absurd (
                      cc (
                        t,
                        Member-All (λ z. z.is_active ≡ false) v (map deactivate db.versions)
                            (deactivated db.versions) o,
                      ))
                  | inr k ↦ elim k [
                    | inl q ↦ ap (λ (z : Version). z.policy_version_id) q
                    | inr l ↦ absurd l.1
                  ]
                ]))

  pub rules_of-Member :
      (db db' : Tables) (new : List Rule) (r : Rule)
      → IsFresh db
      → db'.rules ≡ db.rules ++ map (rule_row db.next_id) new
      → Member r (rules_of e db.next_id db') ↔ Member r new
  unfolding rules_of
  rules_of-Member db db' new r f h = rw h (
      select-Member (rule_row db.next_id) (λ x. x.rule) (rule_of db.next_id) e.scan_rules db.rules
        new r scan.rules (λ q. refl) (λ q. ground arith) (older_rules db.next_id db.rules f.rules))

  pub overrides_of-Member :
      (db db' : Tables) (new : List Override) (o : Override)
      → IsFresh db
      → db'.overrides ≡ db.overrides ++ map (override_row db.next_id) new
      → Member o (overrides_of e db.next_id db') ↔ Member o new
  unfolding overrides_of
  overrides_of-Member db db' new o f h = rw h (
      select-Member (override_row db.next_id) (λ x. x.override) (override_of db.next_id)
        e.scan_overrides db.overrides new o scan.overrides (λ q. refl) (λ q. ground arith)
        (older_overrides db.next_id db.overrides f.overrides))
