-- ===== src/Server/Grpc.antt =====
-- app/grpc_server.py: `Inspect`, from the request to the verdict on the wire.
use dlp_server.Base.{none, some, Option, List, [], Result, ok, raised, ◌>>=◌, ℕ}
use dlp_server.Base.Str.{Str}
use dlp_server.Base.Float.{Float}
use dlp_server.Base.Unicode.{Unicode}
use dlp_server.Models.{Reason, Decision}
use dlp_server.Pipeline.Run.{Adapter, Stage}
use dlp_server.Pipeline.Analyze.{analyze}
use dlp_server.Server.Config.{Config, pipeline_config}

pub record InspectRequest : Type 0 where
  pub session_id : Str
  pub direction : Str
  pub path : Str
  pub headers : List (Str × Str)
  pub body : List ℕ

-- `dlp_pb2.Verdict`
pub record Verdict : Type 0 where
  pub action : Str
  pub transformed_body : List ℕ
  pub reason : Str

-- decision.transformed_body or b""
abbrev pub body_or_empty : Option (List ℕ) → List ℕ
body_or_empty none = []
body_or_empty (some body) = body

-- `dumps` is json.dumps of the reason, and of the fixed one of the handler
module _ {F : Type 0} (dumps : Reason F → Result Str) (grpc_reason : Str) where
  -- the answer to what `analyze` gives, or raises
  unfoldable pub verdict_of : Config F → Result (Decision F (List ℕ)) → Result Verdict
  verdict_of cfg raised =
      ok (record { action = cfg.fail_action; transformed_body = []; reason = grpc_reason })
  verdict_of cfg (ok decision) = dumps decision.reason_obj >>= λ reason. ok (record {
    action = decision.action;
    transformed_body = body_or_empty decision.transformed_body;
    reason = reason;
  })

  module _ ⦃fl : Float F⦄ ⦃u : Unicode⦄ (round4 : F → F) {W : Type 0}
      (adapters : List (Adapter (List ℕ))) (gateway : Adapter (List ℕ)) (repr_of : Str → Str)
      (input_stages output_stages : List (Stage F W)) where
    -- `Inspect`, with the state after it
    unfoldable pub inspect : Config F → InspectRequest → W → Result Verdict × W
    inspect cfg request w =
        let (decision, w') =
          analyze round4 adapters gateway repr_of input_stages output_stages request.session_id
            request.direction request.path request.headers request.body (pipeline_config cfg) w in
        (verdict_of cfg (ok decision), w')
