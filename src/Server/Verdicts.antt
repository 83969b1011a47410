-- ===== src/Server/Verdicts.antt =====
-- grpc_server.py over the whole pipeline: what `Inspect` can answer.
use dlp_server.Base.{
  ◌≡◌, refl, sym, subst, inl, inr, ◌⊎◌, Bool, true, false, Option, none, List, [], Result, ok,
  raised, ◌>>=◌, rescue, if_cases, Result-cases, Bool-cases, bind-ok, arith, ℕ,
}
use dlp_server.Base.Str.{Str, str, eq, eq_sound, contains}
use dlp_server.Base.Float.{Float}
use dlp_server.Base.Unicode.{Unicode}
use dlp_server.Models.{Context, Reason, Decision}
use dlp_server.Pipeline.Run
use dlp_server.Pipeline.Run.{
  Adapter, Stage, select_adapter, run_stages, texts, same_texts, first_text,
}
use dlp_server.Pipeline.Judge.{judge}
use dlp_server.Pipeline.Analyze.{
  analyze_input, analyze_output, dispatch, unknown_direction, failed, analyze,
}
use dlp_server.Pipeline.Outcome.{
  Judged, blocked, allowed, transformed, rebuild_raised, judge-Judged,
}
use dlp_server.Server.Config.{
  Config, Source, pipeline_config, fail_actions, log_sinks, checked, load_config,
}
use dlp_server.Server.Grpc.{InspectRequest, Verdict, body_or_empty, verdict_of, inspect}

-- an answer that the proxy can carry out: only one that transforms has a body
abbrev IsAnswer : {Body : Type 0} → Str → Option Body → Type 0
IsAnswer action body =
    ((body ≡ none) × ((action ≡ str "allow") ⊎ (action ≡ str "block"))) ⊎ (action ≡ str "transform")

abbrev IsDecided : {F Body : Type 0} → Result (Decision F Body) → Type 0
IsDecided raised = Unit
IsDecided (ok d) = IsAnswer d.action d.transformed_body

module _ {F : Type 0} ⦃fl : Float F⦄ ⦃u : Unicode⦄ (round4 : F → F) {Body : Type 0} where
  Judged-IsDecided :
      (ctx : Context F) (cfg : Run.Config F) (check_risk unchanged : Bool) (new_body : Result Body)
      {answer : Result (Decision F Body)}
      → Judged round4 ctx cfg check_risk unchanged new_body answer
      → IsDecided answer
  Judged-IsDecided ctx cfg check_risk unchanged new_body (blocked d f a b) = inl (b, inr a)
  Judged-IsDecided ctx cfg check_risk unchanged new_body (allowed d c n a b) = inl (b, inl a)
  Judged-IsDecided ctx cfg check_risk unchanged new_body (transformed d body c n e a b) = inr a
  Judged-IsDecided ctx cfg check_risk unchanged new_body (rebuild_raised c n e) = tt

  judge-IsDecided :
      (ctx : Context F) (cfg : Run.Config F) (check_risk unchanged : Bool) (new_body : Result Body)
      → IsDecided (judge round4 ctx cfg check_risk unchanged new_body)
  judge-IsDecided ctx cfg check_risk unchanged new_body =
      Judged-IsDecided ctx cfg check_risk unchanged new_body
        (judge-Judged round4 ctx cfg check_risk unchanged new_body)

  bind-IsDecided :
      (m : Result (Context F)) (f : Context F → Result (Decision F Body))
      → ((ctx : Context F) → IsDecided (f ctx))
      → IsDecided (m >>= f)
  bind-IsDecided raised f h = tt
  bind-IsDecided (ok ctx) f h = h ctx

  module _ {W : Type 0} (adapters : List (Adapter Body)) (gateway : Adapter Body)
      (stages : List (Stage F W)) (session_id path : Str) (headers : List (Str × Str)) (body : Body)
      (cfg : Run.Config F) (w : W) where
    analyze_input-IsDecided :
        IsDecided
          (analyze_input round4 adapters gateway stages session_id path headers body cfg w).0
    unfolding analyze_input
    analyze_input-IsDecided =
        elim (Result-cases (select_adapter adapters gateway path headers body)) [
          | inr e ↦ rw (e, analyze_input) tt
          | inl (adapter, e) ↦ elim (Result-cases (adapter.extract_turns body)) [
            | inr q ↦ rw (e, q, analyze_input) tt
            | inl (turns, q) ↦
                rw (e, q, analyze_input)
                  (bind-IsDecided _ _ (λ ctx. judge-IsDecided ctx cfg true _ _))
          ]
        ]

    analyze_output-IsDecided :
        IsDecided
          (analyze_output round4 adapters gateway stages session_id path headers body cfg w).0
    unfolding analyze_output
    analyze_output-IsDecided =
        elim (Result-cases (select_adapter adapters gateway path headers body)) [
          | inr e ↦ rw (e, analyze_output) tt
          | inl (adapter, e) ↦ elim (Result-cases (adapter.parse_response body)) [
            | inr q ↦ rw (e, q, analyze_output) tt
            | inl (answer, q) ↦
                rw (e, q, analyze_output)
                  (bind-IsDecided _ _ (λ ctx. judge-IsDecided ctx cfg false _ _))
          ]
        ]

-- the two actions that a loaded configuration can ask for
fail_actions-cases :
    (s : Str) → contains fail_actions s ≡ true → (s ≡ str "allow") ⊎ (s ≡ str "block")
unfolding contains
fail_actions-cases s h = elim (Bool-cases (eq (str "block") s)) [
  | inl t ↦ inr (sym (eq_sound (str "block") s t))
  | inr f ↦ inl (sym (eq_sound (str "allow") s (ground arith)))
]

checked-fail_action :
    {F : Type 0} (c cfg : Config F)
    → checked c ≡ ok cfg
    → (cfg.fail_action ≡ str "allow") ⊎ (cfg.fail_action ≡ str "block")
unfolding checked
checked-fail_action c cfg h = elim (Bool-cases (contains fail_actions c.fail_action)) [
  | inr f ↦ absurd (cc (rw f at h))
  | inl t ↦ elim (Bool-cases (contains log_sinks c.log_sink)) [
    | inr g ↦ absurd (cc (rw g at (rw t at h)))
    | inl g ↦
        let q : c ≡ cfg = cc (rw g at (rw t at h)) in
        subst (λ (x : Config _). (x.fail_action ≡ str "allow") ⊎ (x.fail_action ≡ str "block")) q
          (fail_actions-cases c.fail_action t)
  ]
]

module _ {F : Type 0} ⦃fl : Float F⦄ ⦃u : Unicode⦄ (round4 : F → F) {W : Type 0}
    (adapters : List (Adapter (List ℕ))) (gateway : Adapter (List ℕ)) (repr_of : Str → Str)
    (input_stages output_stages : List (Stage F W)) where
  dispatch-IsDecided :
      (session_id direction path : Str) (headers : List (Str × Str)) (body : List ℕ)
      (cfg : Run.Config F) (w : W)
      → IsDecided
          (dispatch round4 adapters gateway repr_of input_stages output_stages session_id direction
            path headers body cfg w).0
  unfolding dispatch unknown_direction
  dispatch-IsDecided session_id direction path headers body cfg w =
      if_cases (λ (p : Result (Decision F (List ℕ)) × W). IsDecided p.0)
        (eq direction (str "input"))
        (λ _.
          analyze_input-IsDecided round4 adapters gateway input_stages session_id path headers body
            cfg w)
        (λ _.
          if_cases (λ (p : Result (Decision F (List ℕ)) × W). IsDecided p.0)
            (eq direction (str "output"))
            (λ _.
              analyze_output-IsDecided round4 adapters gateway output_stages session_id path headers
                body cfg w)
            (λ _. inl (refl, inl refl)))

  rescued :
      (cfg : Run.Config F) (r : Result (Decision F (List ℕ)))
      → (cfg.fail_action ≡ str "allow") ⊎ (cfg.fail_action ≡ str "block")
      → IsDecided r
      → IsDecided (ok (rescue r (failed cfg)))
  unfolding failed
  rescued cfg raised h d = inl (refl, h)
  rescued cfg (ok x) h d = d

  -- With a configuration that `load_config` accepted and a reason that json.dumps can write,
  -- `Inspect` answers every request, whatever the adapters and the stages do: with allow, block or
  -- transform, and with an empty body unless it is transform.
  pub inspect-Answers :
      (dumps : Reason F → Result Str) (grpc_reason : Str) (build : List Source → Result (Config F))
      (exists : Str → Bool) (default_path : Str) (dlp_config path : Option Str) (cfg : Config F)
      (request : InspectRequest) (w : W)
      → load_config build exists default_path dlp_config path ≡ ok cfg
      → ((r : Reason F) → (s : Str) × (dumps r ≡ ok s))
      → (v : Verdict) × ((inspect dumps grpc_reason round4 adapters gateway repr_of input_stages
            output_stages cfg request w).0
          ≡ ok v)
        × (((v.action ≡ str "allow") ⊎ (v.action ≡ str "block")) × (v.transformed_body ≡ [])
            ⊎ (v.action ≡ str "transform"))
  unfolding load_config inspect analyze verdict_of
  inspect-Answers dumps grpc_reason build exists default_path dlp_config path cfg request w load
        total =
      let (c, b, k) = bind-ok (build _) checked load in
      let d =
        rescue
          (dispatch round4 adapters gateway repr_of input_stages output_stages request.session_id
            request.direction request.path request.headers request.body (pipeline_config cfg) w).0
          (failed (pipeline_config cfg)) in
      let answer : IsAnswer d.action d.transformed_body =
        rescued (pipeline_config cfg) _ (checked-fail_action c cfg k) (
          dispatch-IsDecided request.session_id request.direction request.path request.headers
            request.body (pipeline_config cfg) w) in
      let (s, e) = total d.reason_obj in
      (
        record {
          action = d.action;
          transformed_body = body_or_empty d.transformed_body;
          reason = s;
        },
        rw e refl,
        elim answer [ inl (none_sent, a) ↦ inl (a, rw none_sent refl) | inr t ↦ inr t ],
      )
