-- ===== src/Policy/Choice.antt =====
-- engine.py: which override or rule `pick_action` takes.
use dlp_server.Base.{
  ◌<◌, Bool, true, false, Option, List, [], ◌∷◌, ◌≡◌, refl, ◌⊎◌, inr, arith, filter, All, Member,
  filter_empty,
}
use dlp_server.Base.Str.{Str}
use dlp_server.Base.Int.{◌≤ℤ◌}
use dlp_server.Base.Max.{max_by, max_by-filter}
use dlp_server.Base.Float.{Float}
use dlp_server.Base.Unicode.{Unicode}
use dlp_server.Policy.{
  Rule, Override, Ruleset, fallback_action, matches, specificity, rule_lt, override_lt, best_rule,
  best_override, fires, pick_action,
}

-- the order of the overrides, by priority
abbrev pub OverrideLe : Override → Override → Type 0
OverrideLe a b = a.priority ≤ℤ b.priority

-- the order of the rules, by specificity and then priority
abbrev pub RuleLe : Rule → Rule → Type 0
RuleLe a b =
    (specificity a < specificity b) ⊎ ((specificity a ≡ specificity b) × (a.priority ≤ℤ b.priority))

-- The ways to an action: an override that fires and has the highest priority of those that fire;
-- where none fires, a rule that matches and is not below another that matches; where no rule
-- matches either, the fallback.
pub data Chosen (rs : Ruleset) (fire : Override → Bool) (match : Rule → Bool) : Str → Type 0 where
  by_override :
      (o : Override)
      → Member o rs.overrides
      → fire o ≡ true
      → All (λ p. fire p ≡ true → OverrideLe p o) rs.overrides
      → Chosen rs fire match o.action
  by_rule :
      (r : Rule)
      → All (λ p. fire p ≡ false) rs.overrides
      → Member r rs.rules
      → match r ≡ true
      → All (λ q. match q ≡ true → RuleLe q r) rs.rules
      → Chosen rs fire match r.action
  by_fallback :
      All (λ p. fire p ≡ false) rs.overrides
      → All (λ q. match q ≡ false) rs.rules
      → Chosen rs fire match fallback_action

RuleLe-trans : (a b c : Rule) → RuleLe a b → RuleLe b c → RuleLe a c
RuleLe-trans a b c h k = ground arith

RuleLe-refl : (a : Rule) → RuleLe a a
RuleLe-refl a = inr (refl, omega arith)

RuleLe-of_lt : (a b : Rule) → rule_lt a b ≡ true → RuleLe a b
unfolding rule_lt
RuleLe-of_lt a b h = ground arith

RuleLe-of_not : (a b : Rule) → rule_lt a b ≡ false → RuleLe b a
unfolding rule_lt
RuleLe-of_not a b h = ground arith

module _ (rs : Ruleset) (fire : Override → Bool) (match : Rule → Bool) where
  choose_rule :
      (kept : List Rule)
      → filter match rs.rules ≡ kept
      → All (λ p. fire p ≡ false) rs.overrides
      → Chosen rs fire match (best_rule kept)
  unfolding best_rule
  choose_rule [] e quiet = by_fallback quiet (filter_empty match rs.rules e)
  choose_rule (r ∷ rest) e quiet =
      let (a, t, top) =
        max_by-filter rule_lt RuleLe RuleLe-refl RuleLe-trans RuleLe-of_lt RuleLe-of_not match
          rs.rules r rest e in
      by_rule (max_by rule_lt r rest) quiet a t top

  choose_override :
      (kept : List Override)
      → filter fire rs.overrides ≡ kept
      → Chosen rs fire match (best_override kept (best_rule (filter match rs.rules)))
  unfolding best_override
  choose_override [] e = choose_rule (filter match rs.rules) refl (filter_empty fire rs.overrides e)
  choose_override (o ∷ rest) e =
      let (a, t, top) =
        max_by-filter override_lt OverrideLe (λ x. omega arith) (λ x y z h k. omega arith)
          (λ x y h. ground arith) (λ x y h. ground arith) fire rs.overrides o rest e in
      by_override (max_by override_lt o rest) a t top

module _ {F : Type 0} ⦃fl : Float F⦄ ⦃u : Unicode⦄ where
  -- Whatever the rules, `pick_action` takes the action of an override that fires, of the highest
  -- priority of those; if none fires, of a matching rule that no other matching rule exceeds in
  -- specificity and then priority; if there is none of these either, the fallback.
  pub pick_action-Chosen :
      (rs : Ruleset) (purpose : Str) (role : Option Str) (entity_type : Str) (risk_score : F)
      (injection_hit : Bool)
      → Chosen rs
          (fires risk_score injection_hit)
          (matches purpose role entity_type)
          (pick_action rs purpose role entity_type risk_score injection_hit)
  unfolding pick_action
  pick_action-Chosen rs purpose role entity_type risk_score injection_hit =
      choose_override rs (fires risk_score injection_hit) (matches purpose role entity_type)
        (filter (fires risk_score injection_hit) rs.overrides) refl
