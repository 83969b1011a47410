-- ===== src/Server/Boot.antt =====
-- app/main.py: the start of the process. Each call may raise; what it gave is an argument.
use dlp_server.Base.{Bool, true, false, some, List, [], ◌∷◌, Result, ok, raised, ◌>>=◌}
use dlp_server.Base.Str.{Str}
use dlp_server.Detect.Ner.Engine.{Settings, settings}
use dlp_server.Server.Config.{Config}

-- what the process has started, in order
pub data Started (F : Type 0) : Type 0 where
  -- the NER engine with its settings, and whether its model was loaded
  ner : Settings F → Bool → Started F
  grpc : Config F → Started F
  -- where it listens, and the settings of the routes
  api : Config F → Config F → Started F

abbrev pub succeeded {ℓ} : {A : Type ℓ} → Result A → Bool
succeeded (ok a) = true
succeeded raised = false

module _ {F : Type 0} (default_name : Str) (default_threshold : F) where
  -- `main` up to the wait for a signal. `preload` is what loading the model does; a failure of it
  -- does not stop the start. `create_app` loads the configuration again.
  unfoldable pub boot :
      Result (Config F)
      → Result (Unit {0})
      → Result (Unit {0})
      → Result (Config F)
      → Result (List (Started F))
  boot load preload start_grpc load_again = do
    cfg ← load
    let engine =
        settings default_name default_threshold (some cfg.detect.ner_model_name)
          (some cfg.detect.layers.ner_threshold)
    _ ← start_grpc
    app ← load_again
    ok (ner engine (succeeded preload) ∷ grpc cfg ∷ api cfg app ∷ [])
