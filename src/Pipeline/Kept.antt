-- ===== src/Pipeline/Kept.antt =====
-- pipeline.py: what each stage on a request leaves as it was, in a run that ends unblocked.
use dlp_server.Base.{
  Option, ◌≡◌, refl, sym, ap, ◌∙◌, subst, false, List, [], ◌∷◌, Result, ok, raised, Result-cases,
  Bool-cases, inl, inr, arith, absurd_test,
}
use dlp_server.Base.Str.{str, eq}
use dlp_server.Base.Float.{Float}
use dlp_server.Base.Unicode.{Unicode}
use dlp_server.Models.{Context, Span}
use dlp_server.Detect.Layers.{pii_detect_stage}
use dlp_server.Guard.Injection.{injection_guard, note_verdict}
use dlp_server.Session.Stage.{multiturn_stage, remember_purpose_stage}
use dlp_server.Transform.Stage.{World, transform_stage}
use dlp_server.Transform.Carried.{Carried, transform_stage-Carried}
use dlp_server.Policy.{Ruleset}
use dlp_server.Policy.Stage.{
  cached_ruleset, note_action, stage_error, decide, decide_spans, with_purpose,
  purpose_policy_stage,
}
use dlp_server.Pipeline.Run.{Stage, run_stages}
use dlp_server.Pipeline.Ran.{run_stages_raised, run_stages_blocked, run_stages_passed}
use dlp_server.Pipeline.Stages.{
  Surroundings, Shared, guard_step, detect_step, multiturn_step, policy_step, remember_step,
  transform_step,
}

pub ok_inj : {F : Type 0} (a b : Context F) → ok a ≡ ok b → a ≡ b
ok_inj a b e = ground (arith, e)

no_ok : {F : Type 0} (c : Context F) (r : Result (Context F)) → r ≡ raised → r ≡ ok c → ⊥
no_ok c r e h = ground (arith, e, h)

module _ {F W : Type 0} where
  -- what a run that ends unblocked says of its first stage
  pub record Step (stage : Stage F W) (rest : List (Stage F W)) (ctx : Context F) (w : W)
      (c : Context F) : Type 0 where
    pub left : Context F
    pub gave : (stage ctx w).0 ≡ ok left
    pub unblocked : left.blocked ≡ false
    pub later : (run_stages rest left (stage ctx w).1).0 ≡ ok c

  pub first-Step :
      (stage : Stage F W) (rest : List (Stage F W)) (ctx : Context F) (w : W) (c : Context F)
      → (run_stages (stage ∷ rest) ctx w).0 ≡ ok c
      → c.blocked ≡ false
      → Step stage rest ctx w c
  first-Step stage rest ctx w c h b = elim (Result-cases (stage ctx w).0) [
    | inr e ↦ absurd (no_ok c _ (ap (λ r. r.0) (run_stages_raised stage rest ctx w e)) h)
    | inl (ctx', e) ↦ elim (Bool-cases ctx'.blocked) [
      | inl t ↦
          let same : ctx' ≡ c =
            ok_inj ctx' c
              (sym (ap (λ r. r.0) (run_stages_blocked stage rest ctx w ctx' e t)) ∙ h) in
          absurd (absurd_test t (ap (λ (z : Context F). z.blocked) same ∙ b))
      | inr n ↦ record {
        left = ctx';
        gave = e;
        unblocked = n;
        later = sym (ap (λ r. r.0) (run_stages_passed stage rest ctx w ctx' e n)) ∙ h;
      }
    ]
  ]

module _ {F : Type 0} where
  -- what no stage before the last changes of a request
  abbrev pub SameRequest : Context F → Context F → Type 0
  SameRequest a b = (a.turns ≡ b.turns) × (a.session_id ≡ b.session_id) × (a.role ≡ b.role)

  pub SameRequest-trans : (a b c : Context F) → SameRequest a b → SameRequest b c → SameRequest a c
  SameRequest-trans a b c h k = (h.0 ∙ k.0, h.1 ∙ k.1, h.2 ∙ k.2)

module _ {F : Type 0} ⦃fl : Float F⦄ ⦃u : Unicode⦄ (s : Surroundings F) where
  pub guard_keeps :
      (ctx : Context F) (w : Shared F) (left : Context F)
      → (guard_step s ctx w).0 ≡ ok left
      → (left.direction ≡ ctx.direction)
        × (left.span_actions ≡ ctx.span_actions)
        × SameRequest left ctx
  unfolding injection_guard note_verdict
  guard_keeps ctx w left h = ground (arith, h)

  pub multiturn_keeps :
      (ctx : Context F) (w : Shared F) (left : Context F)
      → (multiturn_step s ctx w).0 ≡ ok left
      → (left.direction ≡ ctx.direction)
        × (left.span_actions ≡ ctx.span_actions)
        × (left.new_turn_spans ≡ ctx.new_turn_spans)
        × SameRequest left ctx
  unfolding multiturn_stage
  multiturn_keeps ctx w left h = ground (arith, h)

  pub remember_keeps :
      (ctx : Context F) (w : Shared F) (left : Context F)
      → (remember_step s ctx w).0 ≡ ok left
      → (left.span_actions ≡ ctx.span_actions) × SameRequest left ctx
  unfolding remember_purpose_stage
  remember_keeps ctx w left h = ground (arith, h)

  kept_actions :
      (ctx : Context F) (w : World)
      → (transform_stage s.env ctx w).0.span_actions ≡ ctx.span_actions
  unfolding transform_stage
  kept_actions ctx w = ground arith

  pub transform_keeps :
      (ctx : Context F) (w : Shared F) (left : Context F)
      → (transform_step s ctx w).0 ≡ ok left
      → (left.span_actions ≡ ctx.span_actions) × Carried s.env ctx left.turns
  transform_keeps ctx w left h =
      let e = ok_inj (transform_stage s.env ctx w.world).0 left h in
      (
        sym (ap (λ (z : Context F). z.span_actions) e) ∙ kept_actions ctx w.world,
        subst (λ (z : Context F). Carried s.env ctx z.turns) e
            (transform_stage-Carried s.env ctx w.world),
      )

  -- what the detection makes of a context depends on its turns
  pub found_by :
      (a b : Context F)
      → a.turns ≡ b.turns
      → (pii_detect_stage s.detect_config s.layers a).new_turn_spans
        ≡ (pii_detect_stage s.detect_config s.layers b).new_turn_spans
  unfolding pii_detect_stage
  found_by a b e = rw e refl

  pub detect_keeps :
      (ctx : Context F) (w : Shared F) (left : Context F)
      → (detect_step s ctx w).0 ≡ ok left
      → (left.direction ≡ ctx.direction)
        × (left.span_actions ≡ ctx.span_actions)
        × (left.new_turn_spans ≡ (pii_detect_stage s.detect_config s.layers ctx).new_turn_spans)
        × SameRequest left ctx
  unfolding pii_detect_stage
  detect_keeps ctx w left h =
      let e = sym (ok_inj _ left h) in
      (
        ap (λ (z : Context F). z.direction) e,
        ap (λ (z : Context F). z.span_actions) e,
        ap (λ (z : Context F). z.new_turn_spans) e,
        (
          ap (λ (z : Context F). z.turns) e,
          ap (λ (z : Context F). z.session_id) e,
          ap (λ (z : Context F). z.role) e,
        ),
      )

  decide_spans-SameRequest :
      (ctx : Context F) (spans : List (Span F)) (cache : Option Ruleset)
      → SameRequest (decide_spans s.rules_load ctx spans cache).0 ctx
  unfolding decide_spans note_action stage_error
  decide_spans-SameRequest ctx [] cache = (refl, refl, refl)
  decide_spans-SameRequest ctx (span ∷ rest) cache =
      elim (Result-cases (cached_ruleset s.rules_load cache).0) [
        | inr e ↦ rw (e, decide_spans) (refl, refl, refl)
        | inl (rs, e) ↦
            let next = note_action ctx span (decide ctx rs span) in
            rw (e, decide_spans)
              (decide_spans-SameRequest next rest (cached_ruleset s.rules_load cache).1)
      ]

  policy-SameRequest :
      (ctx : Context F) (cache : Option Ruleset)
      → SameRequest (purpose_policy_stage s.purpose_rules s.rules_load ctx cache).0 ctx
  unfolding purpose_policy_stage with_purpose
  policy-SameRequest ctx cache = elim (Bool-cases (eq ctx.direction (str "input"))) [
    | inr e ↦ rw e (refl, refl, refl)
    | inl e ↦
        rw e (decide_spans-SameRequest (with_purpose s.purpose_rules ctx) ctx.new_turn_spans cache)
  ]

  pub policy_keeps :
      (ctx : Context F) (w : Shared F) (left : Context F)
      → (policy_step s ctx w).0 ≡ ok left
      → SameRequest left ctx
  policy_keeps ctx w left h =
      subst (λ (z : Context F). SameRequest z ctx) (ok_inj _ left h)
        (policy-SameRequest ctx w.ruleset_cache)
