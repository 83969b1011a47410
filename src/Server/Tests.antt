-- ===== src/Server/Tests.antt =====
-- The service with the default settings, the gateway adapter and no stages.
use dlp_server.Base.{ℕ, ◌≡◌, refl, ◌⊎◌, true, false, none, some, List, [], ◌∷◌, ok, raised}
use dlp_server.Base.Str.{str, eq, contains}
use dlp_server.Base.Float.{fixed}
use dlp_server.Base.Unicode.{ascii}
use dlp_server.Pipeline.Run.{Stage}
use dlp_server.Adapters.Json.{text, arr, obj, nil, cons, stop, field}
use dlp_server.Adapters.Postfix.{postfix}
use dlp_server.Adapters.Gateway.{gateway}
use dlp_server.Server.Config.{
  defaults, checked, load_config, yaml_path, settings_customise_sources, init_settings,
  env_settings, dotenv_settings, yaml_settings, file_secret_settings,
}
use dlp_server.Server.Grpc.{InspectRequest, Verdict, inspect}
use dlp_server.Server.Verdicts.{inspect-Answers}

abbrev small_request : InspectRequest
small_request = record {
  session_id = str "s";
  direction = str "input";
  path = str "/chat";
  headers = [];
  body = postfix.dumps (
      obj (
        field (str "messages") (arr (cons (obj (field (str "content") (text (str "hi")) stop)) nil))
          stop));
}

abbrev no_stages : List (Stage ℕ ℕ)
no_stages = []

default_file :
    settings_customise_sources (yaml_path (str "a.yaml") (some (str "b.yaml")) none) true
    ≡ init_settings
      ∷ env_settings
      ∷ dotenv_settings
      ∷ yaml_settings (str "b.yaml")
      ∷ file_secret_settings
      ∷ []
unfolding settings_customise_sources yaml_path
default_file = refl

bad_sink : checked (record (defaults {F = ℕ}) { log_sink = str "file" }) ≡ raised
unfolding checked defaults contains eq
bad_sink = refl

inspect-Answers_example :
    (v : Verdict) × ((inspect
        (λ r. ok (str "{}"))
        (str "{}")
        (λ x. x)
        []
        (gateway postfix)
        (λ s. s)
        no_stages
        no_stages
        defaults
        small_request
        0).0
      ≡ ok v)
    × (((v.action ≡ str "allow") ⊎ (v.action ≡ str "block")) × (v.transformed_body ≡ [])
        ⊎ (v.action ≡ str "transform"))
unfolding load_config checked defaults contains eq
inspect-Answers_example =
    inspect-Answers (λ x. x) [] (gateway postfix) (λ s. s) no_stages no_stages (λ r. ok (str "{}"))
      (str "{}") (λ sources. ok defaults) (λ p. false) (str "c") none none defaults small_request 0
      refl (λ r. (str "{}", refl))
