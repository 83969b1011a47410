-- ===== src/Pipeline/Closed.antt =====
-- pipeline.py: a request gets past `analyze` only through all of its stages.
use dlp_server.Base.{
  ◌≡◌, refl, ap, ◌∙◌, Bool, true, some, List, Result, ok, raised, Result-cases, inl, inr, ◌⊎◌,
  arith,
}
use dlp_server.Base.Str.{Str, str, eq}
use dlp_server.Base.Float.{Float}
use dlp_server.Base.Unicode.{Unicode}
use dlp_server.Models.{Turn, Context, Decision}
use dlp_server.Purpose.RoleResolver.{resolve}
use dlp_server.Pipeline.Run.{Adapter, Config, Stage, select_adapter, run_stages, texts, same_texts}
use dlp_server.Pipeline.Judge.{new_context, judge}
use dlp_server.Pipeline.Analyze.{analyze_input, dispatch, failed, analyze}
use dlp_server.Pipeline.Outcome.{
  IsClear, Judged, blocked, allowed, transformed, rebuild_raised, judge-Judged,
}

module _ {F : Type 0} ⦃fl : Float F⦄ ⦃u : Unicode⦄ (round4 : F → F) {Body W : Type 0}
    (adapters : List (Adapter Body)) (gateway : Adapter Body) (stages : List (Stage F W))
    (session_id path : Str) (headers : List (Str × Str)) (body : Body) (cfg : Config F)
    (w : W) where
  -- the stages ran on the turns that an adapter read from the body, and ended with nothing that
  -- asks for a block
  pub record IsPassed : Type 0 where
    pub adapter : Adapter Body
    pub turns : List Turn
    pub ctx : Context F
    pub selected : select_adapter adapters gateway path headers body ≡ ok adapter
    pub read : adapter.extract_turns body ≡ ok turns
    pub ran :
        (run_stages stages
          (new_context session_id (str "input") adapter.name (resolve (some headers)) turns)
          w).0
        ≡ ok ctx
    pub clear : IsClear ctx cfg true

  Judged-passed :
      (ctx : Context F) (unchanged : Bool) (new_body : Result Body)
      {answer : Result (Decision F Body)}
      → Judged round4 ctx cfg true unchanged new_body answer
      → (answer ≡ raised)
        ⊎ ((d : Decision F Body) × (answer ≡ ok d) × (d.action ≡ str "block"))
        ⊎ IsClear ctx cfg true
  Judged-passed ctx unchanged new_body (blocked d f a b) = inr (inl (d, refl, a))
  Judged-passed ctx unchanged new_body (allowed d c _ _ _) = inr (inr c)
  Judged-passed ctx unchanged new_body (transformed d b c _ _ _ _) = inr (inr c)
  Judged-passed ctx unchanged new_body (rebuild_raised c _ _) = inl refl

  abbrev analyzed : Result (Decision F Body)
  analyzed = (analyze_input round4 adapters gateway stages session_id path headers body cfg w).0

  module _ (adapter : Adapter Body) (turns : List Turn) where
    abbrev run : Result (Context F)
    run =
        (run_stages stages
          (new_context session_id (str "input") adapter.name (resolve (some headers)) turns) w).0

    stages_raised :
        select_adapter adapters gateway path headers body ≡ ok adapter
        → adapter.extract_turns body ≡ ok turns
        → run ≡ raised
        → analyzed ≡ raised
    unfolding analyze_input
    stages_raised s t r = ground (arith, s, t, r)

    stages_judged :
        (ctx : Context F)
        → select_adapter adapters gateway path headers body ≡ ok adapter
        → adapter.extract_turns body ≡ ok turns
        → run ≡ ok ctx
        → analyzed
          ≡ judge round4 ctx cfg true
              (same_texts (texts ctx.turns) (texts turns))
              (adapter.rebuild body ctx.turns)
    unfolding analyze_input
    stages_judged ctx s t r = ground (arith, s, t, r)

  no_adapter : select_adapter adapters gateway path headers body ≡ raised → analyzed ≡ raised
  unfolding analyze_input
  no_adapter s = ground (arith, s)

  no_turns :
      (adapter : Adapter Body)
      → select_adapter adapters gateway path headers body ≡ ok adapter
      → adapter.extract_turns body ≡ raised
      → analyzed ≡ raised
  unfolding analyze_input
  no_turns adapter s t = ground (arith, s, t)

  abbrev Outcome : Type 0
  Outcome =
      (analyzed ≡ raised)
      ⊎ ((d : Decision F Body) × (analyzed ≡ ok d) × (d.action ≡ str "block"))
      ⊎ IsPassed

  judged :
      (adapter : Adapter Body) (turns : List Turn) (ctx : Context F)
      → select_adapter adapters gateway path headers body ≡ ok adapter
      → adapter.extract_turns body ≡ ok turns
      → run adapter turns ≡ ok ctx
      → Outcome
  judged adapter turns ctx s t r =
      let e = stages_judged adapter turns ctx s t r in
      elim (Judged-passed ctx _ _ (
        judge-Judged round4 ctx cfg true (same_texts (texts ctx.turns) (texts turns))
          (adapter.rebuild body ctx.turns))) [
            | inl raises ↦ inl (e ∙ raises)
            | inr (inl (d, q, a)) ↦ inr (inl (d, e ∙ q, a))
            | inr (inr c) ↦ inr (
                inr (record {
                  adapter = adapter;
                  turns = turns;
                  ctx = ctx;
                  selected = s;
                  read = t;
                  ran = r;
                  clear = c;
                }))
          ]

  input_outcome : Outcome
  input_outcome = elim (Result-cases (select_adapter adapters gateway path headers body)) [
    | inr s ↦ inl (no_adapter s)
    | inl (adapter, s) ↦ elim (Result-cases (adapter.extract_turns body)) [
      | inr t ↦ inl (no_turns adapter s t)
      | inl (turns, t) ↦ elim (Result-cases (run adapter turns)) [
        | inr r ↦ inl (stages_raised adapter turns s t r)
        | inl (ctx, r) ↦ judged adapter turns ctx s t r
      ]
    ]
  ]

  module _ (repr_of : Str → Str) (output_stages : List (Stage F W)) where
    abbrev decision : Decision F Body
    decision =
        (analyze round4 adapters gateway repr_of stages output_stages session_id (str "input") path
          headers body cfg w).0

    decision_raised : analyzed ≡ raised → decision.action ≡ cfg.fail_action
    unfolding analyze dispatch failed eq
    decision_raised e = rw e refl

    decision_ok : (d : Decision F Body) → analyzed ≡ ok d → decision ≡ d
    unfolding analyze dispatch eq
    decision_ok d e = rw e refl

    -- Where the configured action for failures is "block", the decision on any request is "block"
    -- unless an adapter was selected, read the turns from the body, and the stages ran on them and
    -- ended with a context that is not blocked, has no injection hit, and has a risk score below
    -- the limit; no exception on the way gives another answer.
    pub analyze-IsPassed :
        cfg.fail_action ≡ str "block" → (decision.action ≡ str "block") ⊎ IsPassed
    analyze-IsPassed closed = elim input_outcome [
      | inl raises ↦ inl (decision_raised raises ∙ closed)
      | inr (inl (d, q, a)) ↦ inl (ap (λ (z : Decision F Body). z.action) (decision_ok d q) ∙ a)
      | inr (inr passed) ↦ inr passed
    ]
