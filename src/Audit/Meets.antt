-- ===== src/Audit/Meets.antt =====
-- app/api.py: which rows the filters of /events let through.
use dlp_server.Base.{
  ℕ, ◌≤◌, ◌≡◌, refl, sym, ◌∙◌, ap, ◌↔◌, true, ◌&&◌, Option, none, some, List, [], ◌∷◌, ◌++◌,
  Bool-cases, Option-cases, inl, inr, arith,
}
use dlp_server.Base.Str.{Str, eq_iff, contains}
use dlp_server.Audit.Event.{Row}
use dlp_server.Audit.Query.{
  Http, returns, status, ◌>>=◌, directions, verdicts, Clock, parse_since, Condition, direction_is,
  verdict_is, created_since, holds, all_hold,
}
use dlp_server.Audit.Routes.{one_of, session_condition, since_condition, conditions}

-- a handler that got past one of its tests
pub bind-returns :
    {A B : Type 0} (test : Http A) (rest : A → Http B) {answer : B}
    → (test >>= rest) ≡ returns answer
    → (given : A) × (test ≡ returns given) × (rest given ≡ returns answer)
bind-returns (status code) rest both = cc
bind-returns (returns given) rest both = (given, refl, both)

returned : {A : Type 0} {a b : A} → returns a ≡ returns b → a ≡ b
returned h = cc

-- what a parameter asks for, if it is given
abbrev pub Given : Option Str → (Str → Type 0) → Type 0
Given none P = Unit
Given (some s) P = P s

module _ {F : Type 0} where
  -- a row that every parameter of /events that is given lets through
  pub record Meets (c : Clock) (direction verdict session_id since : Option Str) (r : Row F)
      : Type 0 where
    pub direction_fits : Given direction (λ s. r.direction ≡ s)
    pub verdict_fits : Given verdict (λ s. r.verdict_action ≡ s)
    pub session_fits : Given session_id (λ s. r.session_id ≡ c.coerce_session_uuid s)
    pub since_fits : Given since (λ s.
        (from : ℕ) × (made : ℕ) × (parse_since c s ≡ returns from)
        × (r.created_at ≡ some made)
        × (from ≤ made))

  all_hold-append :
      (cs ds : List Condition) (r : Row F)
      → all_hold (cs ++ ds) r ≡ (all_hold cs r && all_hold ds r)
  unfolding all_hold
  all_hold-append [] ds r = refl
  all_hold-append (c ∷ cs) ds r = ground (arith, all_hold-append cs ds r)

  one_holds : (c : Condition) (r : Row F) → all_hold (c ∷ []) r ≡ holds c r
  unfolding all_hold
  one_holds c r = ground arith

  one_of-Given :
      (allowed : List Str) (condition : Str → Condition) (o : Option Str) (cs : List Condition)
      (r : Row F)
      → one_of allowed condition o ≡ returns cs
      → (all_hold cs r ≡ true) ↔ Given o (λ s. holds (condition s) r ≡ true)
  unfolding all_hold
  one_of-Given allowed condition none cs r h = rw⁻¹ (returned h) ((λ _. tt), (λ _. refl))
  one_of-Given allowed condition (some s) cs r h = elim (Bool-cases (contains allowed s)) [
    | inr e ↦ absurd (cc (rw e at h))
    | inl e ↦ rw⁻¹ (returned (rw e at h)) (rw (one_holds (condition s) r) ((λ k. k), (λ k. k)))
  ]

  session-Given :
      (c : Clock) (o : Option Str) (r : Row F)
      → (all_hold (session_condition c o) r ≡ true)
        ↔ Given o (λ s. r.session_id ≡ c.coerce_session_uuid s)
  unfolding all_hold holds
  session-Given c none r = ((λ _. tt), (λ _. refl))
  session-Given c (some s) r =
      let (f, g) = eq_iff r.session_id (c.coerce_session_uuid s) in
      ((λ h. f (ground (arith, h))), (λ h. let k = g h in ground (arith, k)))

  abbrev From : Clock → Row F → Str → Type 0
  From c r s =
      (from : ℕ) × (made : ℕ) × (parse_since c s ≡ returns from)
      × (r.created_at ≡ some made)
      × (from ≤ made)

  created-From :
      (c : Clock) (s : Str) (from : ℕ) (r : Row F)
      → parse_since c s ≡ returns from
      → (all_hold (created_since from ∷ []) r ≡ true) ↔ From c r s
  unfolding all_hold holds
  created-From c s from r p = elim (Option-cases r.created_at) [
    | inl e ↦ (
      (λ h. absurd (ground (arith, e, h))),
      (λ (from', made, q, k, l). absurd (ground (arith, e, k))),
    )
    | inr (made, e) ↦ (
      (λ h. (from, made, p, e, ground (arith, e, h))),
      (λ (from', made', q, k, l).
          let same : from' ≡ from = returned (sym q ∙ p) in ground (arith, k, l, same)),
    )
  ]

  since-Given :
      (c : Clock) (o : Option Str) (cs : List Condition) (r : Row F)
      → since_condition c o ≡ returns cs
      → (all_hold cs r ≡ true) ↔ Given o (From c r)
  since-Given c none cs r h = rw⁻¹ (returned h) ((λ _. tt), (λ _. unfold all_hold in refl))
  since-Given c (some s) cs r h =
      let (from, p, q) = bind-returns (parse_since c s) (λ t. returns (created_since t ∷ [])) h in
      rw⁻¹ (returned q) (created-From c s from r p)

  direction-Given :
      (o : Option Str) (r : Row F)
      → Given o (λ s. holds (direction_is s) r ≡ true) ↔ Given o (λ s. r.direction ≡ s)
  unfolding holds
  direction-Given none r = ((λ h. h), (λ h. h))
  direction-Given (some s) r = eq_iff r.direction s

  verdict-Given :
      (o : Option Str) (r : Row F)
      → Given o (λ s. holds (verdict_is s) r ≡ true) ↔ Given o (λ s. r.verdict_action ≡ s)
  unfolding holds
  verdict-Given none r = ((λ h. h), (λ h. h))
  verdict-Given (some s) r = eq_iff r.verdict_action s

  -- The conditions of the handler hold of a row exactly if it meets what was asked for.
  pub conditions-Meets :
      (c : Clock) (direction verdict session_id since : Option Str) (where_ : List Condition)
      (r : Row F)
      → conditions c direction verdict session_id since ≡ returns where_
      → (all_hold where_ r ≡ true) ↔ Meets c direction verdict session_id since r
  unfolding conditions
  conditions-Meets c direction verdict session_id since where_ r h =
      let (ds, p, h1) = bind-returns (one_of directions direction_is direction) _ h in
      let (vs, q, h2) = bind-returns (one_of verdicts verdict_is verdict) _ h1 in
      let (ts, t, h3) = bind-returns (since_condition c since) _ h2 in
      let ss = session_condition c session_id in
      let joined : all_hold where_ r
          ≡ (all_hold ds r && (all_hold vs r && (all_hold ss r && all_hold ts r))) =
        ap (λ cs. all_hold cs r) (sym (returned h3))
        ∙ all_hold-append ds (vs ++ (ss ++ ts)) r
        ∙ ap (λ b. all_hold ds r && b)
            (all_hold-append vs (ss ++ ts) r
              ∙ ap (λ b. all_hold vs r && b) (all_hold-append ss ts r)) in
      let (d1, d2) = one_of-Given directions direction_is direction ds r p in
      let (v1, v2) = one_of-Given verdicts verdict_is verdict vs r q in
      let (s1, s2) = session-Given c session_id r in
      let (t1, t2) = since-Given c since ts r t in
      let (dd, de) = direction-Given direction r in
      let (vd, ve) = verdict-Given verdict r in
      (
        λ k. record {
          direction_fits = dd (d1 (ground (arith, joined, k)));
          verdict_fits = vd (v1 (ground (arith, joined, k)));
          session_fits = s1 (ground (arith, joined, k));
          since_fits = t1 (ground (arith, joined, k));
        },
        λ m.
            let a = d2 (de m.direction_fits) in
            let b = v2 (ve m.verdict_fits) in
            let e = s2 m.session_fits in let f = t2 m.since_fits in joined ∙ rw (a, b, e, f) refl,
      )
