-- ===== src/Adapters/Gateway.antt =====
-- app/adapters/gateway.py: bodies {"messages": [{"role", "content"}], …}.
use dlp_server.Base.{ℕ, Bool, false, Option, none, some, List, [], ◌∷◌, Result, ok, raised, ◌>>=◌}
use dlp_server.Base.Str.{Str, str}
use dlp_server.Models.{Turn}
use dlp_server.Pipeline.Run.{Adapter}
use dlp_server.Adapters.Json.{
  Json, text, arr, obj, Items, nil, cons, Fields, stop, Codec, get, put, or_else, as_dict, dict?,
  list?, and_then, is_list, iterate, first?, last?, set_last, set_first, to_str, read, read_dict,
  write,
}

-- data.get("messages", [])
abbrev pub messages : Fields → Json
messages data_ = or_else (arr nil) (get (str "messages") data_)

-- the loop of `rebuild`: zip stops with the shorter of the two
unfoldable pub set_contents : Items → List Turn → Items
set_contents nil turns = nil
set_contents (cons v vs) [] = cons v vs
set_contents (cons v vs) (t ∷ turns) = elim (dict? v) [
  | none ↦ cons v (set_contents vs turns)
  | some d ↦ cons (obj (put (str "content") (text t.text) d)) (set_contents vs turns)
]

-- only the items of a list are dicts, so only a list changes
abbrev pub rebuilt : Json → List Turn → Json
rebuilt v turns = elim (list? (some v)) [ none ↦ v | some xs ↦ arr (set_contents xs turns) ]

-- the dict that is the last message, if `messages` is a list that ends with one
unfoldable pub last_message : Fields → Option Fields
last_message data_ = and_then (and_then (list? (get (str "messages") data_)) last?) (λ v. dict? v)

-- the dict that is the first choice
unfoldable pub first_choice : Fields → Option Fields
first_choice data_ =
    and_then (and_then (list? (get (str "choices") data_)) (λ xs. first? xs)) (λ v. dict? v)

-- data["message"], if it is a dict
unfoldable pub message : Fields → Option Fields
message data_ = and_then (get (str "message") data_) (λ v. dict? v)

abbrev pub with_content : Str → Fields → Json
with_content s d = obj (put (str "content") (text s) d)

-- the items of a list that is there
abbrev pub items : Option Json → Items
items v = elim (list? v) [ none ↦ nil | some xs ↦ xs ]

-- the dict with the text in the place that is there
abbrev pub set_answer : Option Fields → Option Fields → Option Fields → Fields → Str → Result Fields
set_answer (some last) choice m data_ s = ok (
    put (str "messages") (arr (set_last (with_content s last) (items (get (str "messages") data_))))
      data_)
set_answer none (some choice) m data_ s = do
  m ← as_dict (or_else (obj stop) (get (str "message") choice))
  ok (
      put (str "choices")
        (arr (
          set_first (obj (put (str "message") (with_content s m) choice))
            (items (get (str "choices") data_))))
        data_)
set_answer none none (some m) data_ s = ok (put (str "message") (with_content s m) data_)
set_answer none none none data_ s = ok data_

unfoldable pub respond : Fields → Str → Result Fields
respond data_ s = set_answer (last_message data_) (first_choice data_) (message data_) data_ s

module _ (c : Codec) where
  -- str(d.get("content", ""))
  abbrev pub content : Fields → Str
  content d = to_str c (or_else (text []) (get (str "content") d))

  unfoldable pub matches : Str → List (Str × Str) → List ℕ → Result Bool
  matches path headers body = elim (read c body) [
    | raised ↦ ok false
    | ok v ↦ elim (dict? v) [ none ↦ ok false | some d ↦ ok (is_list (get (str "messages") d)) ]
  ]

  abbrev pub turn_of : Fields → Turn
  turn_of d = record {
    role = to_str c (or_else (text (str "user")) (get (str "role") d));
    text = content d;
  }

  -- the loop of `extract_turns`
  unfoldable pub turns_of : Items → List Turn
  turns_of nil = []
  turns_of (cons v vs) = elim (dict? v) [ none ↦ turns_of vs | some d ↦ turn_of d ∷ turns_of vs ]

  unfoldable pub extract_turns : List ℕ → Result (List Turn)
  extract_turns body = do data_ ← read_dict c body; xs ← iterate (messages data_); ok (turns_of xs)

  unfoldable pub rebuild : List ℕ → List Turn → Result (List ℕ)
  rebuild body turns = do
    data_ ← read_dict c body
    _ ← iterate (messages data_)
    write c (put (str "messages") (rebuilt (messages data_) turns) data_)

  -- the text of the place that is there, the last message before the first choice, and this before
  -- the message
  abbrev pub answer_text : Option Fields → Option Fields → Option Fields → Result Str
  answer_text (some last) choice m = ok (content last)
  answer_text none (some choice) m = do
    m ← as_dict (or_else (obj stop) (get (str "message") choice))
    ok (content m)
  answer_text none none (some m) = ok (content m)
  answer_text none none none = ok []

  unfoldable pub response_text : Fields → Result Str
  response_text data_ = answer_text (last_message data_) (first_choice data_) (message data_)

  unfoldable pub parse_response : List ℕ → Result Str
  parse_response body = read_dict c body >>= response_text

  unfoldable pub rebuild_response : List ℕ → Str → Result (List ℕ)
  rebuild_response body s = do data_ ← read_dict c body; data' ← respond data_ s; write c data'

  -- `GatewayAdapter`
  unfoldable pub gateway : Adapter (List ℕ)
  gateway = record {
    name = str "gateway";
    matches = matches;
    extract_turns = extract_turns;
    rebuild = rebuild;
    parse_response = parse_response;
    rebuild_response = rebuild_response;
  }
