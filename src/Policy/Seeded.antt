-- ===== src/Policy/Seeded.antt =====
-- seed_policy.py: the rows that its loops add.
use dlp_server.Base.{
  ℕ, ◌≡◌, refl, ap, ◌∙◌, ◌↔◌, inl, inr, true, Option, none, some, List, [], ◌∷◌, ◌++◌, map, Result,
  ok, bind-ok, All, Member, All-map, Bool-cases,
}
use mathlib.Core.List.{append_assoc, append-nil}
use dlp_server.Base.Str.{Str, truthy}
use dlp_server.Policy.{Rule, Override}
use dlp_server.Policy.Tables.{RuleRow, OverrideRow, Tables, Engine}
use dlp_server.Policy.Seed.{
  SpecRule, SpecOverride, rule_columns, override_columns, default_rule, insert_all, insert_rule,
  insert_override, insert_rules, insert_overrides, insert_default,
}

abbrev pub rule_row : ℕ → Rule → RuleRow
rule_row vid r = record { policy_version_id = vid; rule = r }

abbrev pub override_row : ℕ → Override → OverrideRow
override_row vid o = record { policy_version_id = vid; override = o }

-- The rows of `new` are those that the entries of `xs` give.
abbrev pub Same : {S R : Type 0} → (S → Result R) → List S → List R → Type 0
Same {S} {R} columns xs new =
    All (λ r. (s : S) × Member s xs × (columns s ≡ ok r)) new
    × All (λ s. (r : R) × Member r new × (columns s ≡ ok r)) xs

-- a loop of inserts, each of which adds its row to the tables
module _ {S R : Type 0} (columns : S → Result R) (insert : R → Tables → Result Tables)
    (add : List R → Tables → Tables)
    (inserted : (r : R) (db db' : Tables) → insert r db ≡ ok db' → db' ≡ add (r ∷ []) db)
    (add_none : (db : Tables) → add [] db ≡ db)
    (add_more : (r : R) (rs : List R) (db : Tables)
      → add rs (add (r ∷ []) db) ≡ add (r ∷ rs) db) where
  insert_all-ok :
      (xs : List S) (db db' : Tables)
      → insert_all columns insert xs db ≡ ok db'
      → (new : List R) × (db' ≡ add new db) × Same columns xs new
  unfolding insert_all
  insert_all-ok [] db db' h = ([], cc (add_none db), (tt, tt))
  insert_all-ok (x ∷ xs) db db' h =
      let (row, c, h1) = bind-ok (columns x) _ h in
      let (db1, i, h2) = bind-ok (insert row db) _ h1 in
      let (new, q, same) = insert_all-ok xs db1 db' h2 in
      (
        row ∷ new,
        cc (q, inserted row db db1 i, add_more row new db),
        (
          ((x, inl refl, c), All-map (λ r w. let (s, m, p) = w in (s, inr m, p)) new same.0),
          ((row, inl refl, c), All-map (λ s w. let (r, m, p) = w in (r, inr m, p)) xs same.1),
        ),
      )

abbrev pub add_rules : ℕ → List Rule → Tables → Tables
add_rules vid new db = record db { rules = db.rules ++ map (rule_row vid) new }

abbrev pub add_overrides : ℕ → List Override → Tables → Tables
add_overrides vid new db = record db { overrides = db.overrides ++ map (override_row vid) new }

module _ (e : Engine) (vid : ℕ) where
  insert_rule-ok :
      (r : Rule) (db db' : Tables)
      → insert_rule e vid r db ≡ ok db'
      → db' ≡ add_rules vid (r ∷ []) db
  unfolding insert_rule
  insert_rule-ok r db db' h = elim (Bool-cases (e.accepts_rule r)) [
    | inl t ↦ cc (rw t at h)
    | inr f ↦ absurd (cc (rw f at h))
  ]

  insert_override-ok :
      (o : Override) (db db' : Tables)
      → insert_override e vid o db ≡ ok db'
      → db' ≡ add_overrides vid (o ∷ []) db
  unfolding insert_override
  insert_override-ok o db db' h = elim (Bool-cases (e.accepts_override o)) [
    | inl t ↦ cc (rw t at h)
    | inr f ↦ absurd (cc (rw f at h))
  ]

  pub insert_rules-ok :
      (rs : List SpecRule) (db db' : Tables)
      → insert_rules e vid rs db ≡ ok db'
      → (new : List Rule) × (db' ≡ add_rules vid new db) × Same rule_columns rs new
  unfolding insert_rules
  insert_rules-ok rs db db' h =
      insert_all-ok rule_columns (insert_rule e vid) (add_rules vid) insert_rule-ok
        (λ d. simp append-nil) (λ r rs d. simp append_assoc) rs db db' h

  pub insert_overrides-ok :
      (os : List SpecOverride) (db db' : Tables)
      → insert_overrides e vid os db ≡ ok db'
      → (new : List Override) × (db' ≡ add_overrides vid new db) × Same override_columns os new
  unfolding insert_overrides
  insert_overrides-ok os db db' h =
      insert_all-ok override_columns (insert_override e vid) (add_overrides vid) insert_override-ok
        (λ d. simp append-nil) (λ r rs d. simp append_assoc) os db db' h

-- the row for `defaults.action`
abbrev pub IsDefault : Option Str → Rule → Type 0
IsDefault d r = (a : Str) × (d ≡ some a) × (truthy a ≡ true) × (r ≡ default_rule a)

module _ (e : Engine) (vid : ℕ) where
  pub insert_default-ok :
      (d : Option Str) (db db' : Tables)
      → insert_default e vid d db ≡ ok db'
      → (new : List Rule) × (db' ≡ add_rules vid new db)
        × ((r : Rule) → Member r new ↔ IsDefault d r)
  unfolding insert_default
  insert_default-ok none db db' h =
      ([], simp append-nil (cc), λ r. (λ m. absurd m.1, λ w. absurd (cc (w.1))))
  insert_default-ok (some a) db db' h = elim (Bool-cases (truthy a)) [
    | inr f ↦ (
      [],
      simp append-nil (cc (rw f at h)),
      λ r. (λ m. absurd m.1, λ w. let (b, p, t, q) = w in absurd (cc (p, t, f))),
    )
    | inl t ↦ (
      default_rule a ∷ [],
      insert_rule-ok e vid (default_rule a) db db' (rw t at h),
      λ r. (
        λ m. elim m [ inl q ↦ (a, refl, t, q) | inr n ↦ absurd n.1 ],
        λ w. let (b, p, t', q) = w in inl (q ∙ ap default_rule (cc p)),
      ),
    )
  ]
