-- ===== src/Policy/Loaded.antt =====
-- seed_policy.py: the rows that a seed adds.
use dlp_server.Base.{
  ℕ, ◌<◌, ◌≡◌, subst, ◌⊎◌, ◌↔◌, inl, inr, true, some, List, ◌++◌, Result, ok, bind-ok, All, Member,
  Member-All,
}
use mathlib.Core.List.{append_assoc, map-append}
use dlp_server.Base.Members.{Member-append}
use dlp_server.Base.Str.{Str, truthy}
use dlp_server.Policy.{Rule, Override}
use dlp_server.Policy.Tables.{Version, RuleRow, OverrideRow, Tables, Engine}
use dlp_server.Policy.Seed.{
  SpecRule, SpecOverride, Spec, rule_columns, override_columns, default_rule, insert_rules,
  insert_overrides, insert_default, new_version, seed,
}
use dlp_server.Policy.Seeded.{
  add_rules, add_overrides, Same, IsDefault, insert_rules-ok, insert_overrides-ok,
  insert_default-ok,
}

-- what the engine's documentation says of a query: it gives the rows of the table, in some order
pub record IsScan (e : Engine) : Type 0 where
  pub versions : (v : Version) (vs : List Version) → Member v (e.scan_versions vs) ↔ Member v vs
  pub rules : (r : RuleRow) (rs : List RuleRow) → Member r (e.scan_rules rs) ↔ Member r rs
  pub overrides :
      (o : OverrideRow) (os : List OverrideRow) → Member o (e.scan_overrides os) ↔ Member o os

-- No rule and no override belongs to a version that is still to come.
pub record IsFresh (db : Tables) : Type 0 where
  pub rules : All (λ r. r.policy_version_id < db.next_id) db.rules
  pub overrides : All (λ o. o.policy_version_id < db.next_id) db.overrides

-- the rules that a specification stands for, and its overrides
abbrev pub FromSpec : Spec → Rule → Type 0
FromSpec spec r =
    ((s : SpecRule) × Member s spec.rules × (rule_columns s ≡ ok r))
    ⊎ ((a : Str) × (spec.default_action ≡ some a) × (truthy a ≡ true) × (r ≡ default_rule a))

abbrev pub OverrideFromSpec : Spec → Override → Type 0
OverrideFromSpec spec o =
    (s : SpecOverride) × Member s spec.risk_overrides × (override_columns s ≡ ok o)

Same-Member :
    {S R : Type 0} (columns : S → Result R) (xs : List S) (new : List R) (r : R)
    → Same columns xs new
    → Member r new ↔ ((s : S) × Member s xs × (columns s ≡ ok r))
Same-Member {S} {R} columns xs new r same = (
  Member-All (λ z. (s : S) × Member s xs × (columns s ≡ ok z)) r new same.0,
  λ w.
      let (s, m, c) = w in
      let (z, n, d) = Member-All (λ y. (q : R) × Member q new × (columns y ≡ ok q)) s xs same.1 m in
      subst (λ q. Member q new) (cc) n,
)

-- the rules of the loop and the default one
rules-FromSpec :
    (spec : Spec) (new1 new2 : List Rule) (r : Rule)
    → Same rule_columns spec.rules new1
    → Member r new2 ↔ IsDefault spec.default_action r
    → Member r (new1 ++ new2) ↔ FromSpec spec r
rules-FromSpec spec new1 new2 r same dflt =
    let (split, join) = Member-append r new1 new2 in
    let (fw, bw) = Same-Member rule_columns spec.rules new1 r same in
    (
      λ m. elim (split m) [ inl a ↦ inl (fw a) | inr b ↦ inr (dflt.0 b) ],
      λ w. elim w [ inl a ↦ join (inl (bw a)) | inr b ↦ join (inr (dflt.1 b)) ],
    )

add_rules-twice :
    (vid : ℕ) (xs ys : List Rule) (db : Tables)
    → add_rules vid ys (add_rules vid xs db) ≡ add_rules vid (xs ++ ys) db
add_rules-twice vid xs ys db = simp (append_assoc, map-append)

module _ (e : Engine) (description : Str) (spec : Spec) where
  -- the tables after a seed, and the rows that it added
  pub seed-ok :
      (db db' : Tables) (vid : ℕ)
      → seed e description spec db ≡ ok (vid, db')
      → (rules : List Rule) × (overrides : List Override) × (vid ≡ db.next_id)
        × (db'
            ≡ add_overrides db.next_id overrides
                (add_rules db.next_id rules (new_version description db)))
        × ((r : Rule) → Member r rules ↔ FromSpec spec r)
        × ((o : Override) → Member o overrides ↔ OverrideFromSpec spec o)
  unfolding seed
  seed-ok db db' vid h =
      let (db1, h1, k1) =
        bind-ok (insert_rules e db.next_id spec.rules (new_version description db)) _ h in
      let (db2, h2, k2) = bind-ok (insert_default e db.next_id spec.default_action db1) _ k1 in
      let (db3, h3, k3) = bind-ok (insert_overrides e db.next_id spec.risk_overrides db2) _ k2 in
      let (new1, q1, same1) =
        insert_rules-ok e db.next_id spec.rules (new_version description db) db1 h1 in
      let (new2, q2, dflt) = insert_default-ok e db.next_id spec.default_action db1 db2 h2 in
      let (new3, q3, same3) = insert_overrides-ok e db.next_id spec.risk_overrides db2 db3 h3 in
      (
        new1 ++ new2,
        new3,
        cc,
        cc (q1, q2, q3, add_rules-twice db.next_id new1 new2 (new_version description db)),
        λ r. rules-FromSpec spec new1 new2 r same1 (dflt r),
        λ o. Same-Member override_columns spec.risk_overrides new3 o same3,
      )
