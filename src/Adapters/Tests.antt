-- ===== src/Adapters/Tests.antt =====
-- The adapters on concrete bodies.
use dlp_server.Base.{ℕ, ◌≡◌, refl, false, some, List, [], ◌∷◌, ok, get_last?}
use dlp_server.Base.Str.{Str, str, eq}
use dlp_server.Models.{Turn}
use dlp_server.Adapters.Json.{
  Json, null, text, arr, obj, nil, cons, Fields, stop, field, get, put, read, read_dict, write,
  set_last, last?,
}
use dlp_server.Adapters.Postfix.{postfix, postfix-IsFaithful}
use dlp_server.Adapters.Gateway.{
  turns_of, extract_turns, set_contents, rebuild, respond, rebuild_response, parse_response,
  last_message,
}
use dlp_server.Adapters.Retold.{retell, rebuild-retell, rebuild_misaligned}
use dlp_server.Adapters.Answered.{parse_response-rebuild_response}

abbrev pub body_of : Json → List ℕ
body_of j = postfix.dumps j

abbrev said : Json
said = obj (field (str "role") (text (str "user")) (field (str "content") (text (str "010")) stop))

-- {"messages": [{"role": "user", "content": "010"}]}
abbrev request : Fields
request = field (str "messages") (arr (cons said nil)) stop

abbrev masked : List Turn
masked = record { role = str "user"; text = str "***" } ∷ []

abbrev request_after : Fields
request_after = put (str "messages") (arr (set_contents (cons said nil) masked)) request

request_read :
    extract_turns postfix (body_of (obj request))
    ≡ ok (record { role = str "user"; text = str "010" } ∷ [])
unfolding extract_turns read_dict read postfix turns_of get eq
request_read = refl

rebuild-retell_example :
    (old : List Turn) × (data' : Fields) × (extract_turns postfix (body_of (obj request)) ≡ ok old)
    × (extract_turns postfix (body_of (obj request_after)) ≡ ok (retell old masked))
    × (read_dict postfix (body_of (obj request_after)) ≡ ok data')
    × ((k : Str) → eq (str "messages") k ≡ false → get k data' ≡ get k request)
unfolding read_dict read postfix rebuild get put set_contents eq write
rebuild-retell_example =
    rebuild-retell postfix postfix-IsFaithful request (cons said nil) masked (body_of (obj request))
      (body_of (obj request_after)) refl refl ((_, refl), tt) refl

-- {"messages": [null, {"role": "user", "content": "010"}]}
abbrev shifted : Fields
shifted = field (str "messages") (arr (cons null (cons said nil))) stop

abbrev shifted_after : Fields
shifted_after = put (str "messages") (arr (set_contents (cons null (cons said nil)) masked)) shifted

rebuild_misaligned_example :
    (new : List Turn) × (extract_turns postfix (body_of (obj shifted_after)) ≡ ok new)
    × (get_last? new ≡ some (record { role = str "user"; text = str "010" }))
unfolding read_dict read postfix rebuild get put set_contents eq write extract_turns turns_of
rebuild_misaligned_example =
    rebuild_misaligned postfix postfix-IsFaithful shifted null (cons said nil)
      (record { role = str "user"; text = str "010" } ∷ [])
      (record { role = str "user"; text = str "***" }) [] (body_of (obj shifted))
      (body_of (obj shifted_after)) refl refl refl ((_, refl), tt) refl refl refl

abbrev answer_after : Fields
answer_after =
    put (str "messages")
      (arr (
        cons
          (obj (
            field (str "role") (text (str "user")) (field (str "content") (text (str "***")) stop)))
          nil))
      request

parse_response-rebuild_response_example :
    parse_response postfix (body_of (obj answer_after)) ≡ ok (str "***")
unfolding read_dict read postfix rebuild_response respond get put eq write last_message set_last
    last?
parse_response-rebuild_response_example =
    parse_response-rebuild_response postfix postfix-IsFaithful request (str "***")
      (body_of (obj request)) (body_of (obj answer_after)) refl refl
