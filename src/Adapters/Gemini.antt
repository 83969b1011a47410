-- ===== src/Adapters/Gemini.antt =====
-- app/adapters/gemini.py: bodies {"contents": [{"role", "parts": [{"text"}]}], …} and answers
-- {"candidates": [{"content": {"parts": [{"text"}]}}]}.
use dlp_server.Base.{
  ℕ, Bool, false, ◌||◌, Option, none, some, List, [], ◌∷◌, ◌++◌, Result, ok, raised, ◌>>=◌,
  if◌then◌else◌,
}
use dlp_server.Base.Str.{Str, str, eq, truthy}
use dlp_server.Models.{Turn}
use dlp_server.Pipeline.Run.{Adapter}
use dlp_server.Adapters.Json.{
  Json, null, boolean, number, text, arr, obj, Items, nil, cons, Fields, stop, field, Codec, get,
  put, or_else, as_dict, dict?, list?, and_then, is_list, iterate, first?, set_first, to_str, read,
  read_dict, write,
}

abbrev pub system_instruction : Fields → Option Fields
system_instruction data_ = and_then (get (str "system_instruction") data_) (λ v. dict? v)

-- data.get("contents", [])
abbrev pub contents : Fields → Json
contents data_ = or_else (arr nil) (get (str "contents") data_)

-- [{"text": s}]
abbrev pub one_part : Str → Json
one_part s = arr (cons (obj (field (str "text") (text s) stop)) nil)

-- the loop of `rebuild`
unfoldable pub set_parts : Items → List Turn → Items
set_parts nil turns = nil
set_parts (cons v vs) [] = cons v vs
set_parts (cons v vs) (t ∷ turns) = elim (dict? v) [
  | none ↦ cons v (set_parts vs turns)
  | some d ↦ cons (obj (put (str "parts") (one_part t.text) d)) (set_parts vs turns)
]

-- the dict after the system's turn was taken off, and the turns that remain
unfoldable pub take_system : Fields → List Turn → Fields × List Turn
take_system data_ [] = (data_, [])
take_system data_ (t ∷ turns) = elim (system_instruction data_) [
  | none ↦ (data_, t ∷ turns)
  | some d ↦
      if eq t.role (str "system")
      then (
        put (str "system_instruction") (obj (field (str "parts") (one_part t.text) stop)) data_,
        turns,
      )
      else (data_, t ∷ turns)
]

abbrev pub rebuilt : Json → List Turn → Json
rebuilt v turns = elim (list? (some v)) [ none ↦ v | some xs ↦ arr (set_parts xs turns) ]

-- candidates[0], if `candidates` is a list that begins with a dict
unfoldable pub first_candidate : Fields → Option Fields
first_candidate data_ =
    and_then (and_then (list? (get (str "candidates") data_)) (λ xs. first? xs)) (λ v. dict? v)

-- the items of a list that is there
abbrev pub items : Option Json → Items
items v = elim (list? v) [ none ↦ nil | some xs ↦ xs ]

module _ (c : Codec) where
  unfoldable pub matches : Str → List (Str × Str) → List ℕ → Result Bool
  matches path headers body = elim (read c body) [
    | raised ↦ ok false
    | ok v ↦ elim (dict? v) [
      | none ↦ ok false
      | some d ↦ ok (is_list (get (str "contents") d) || is_list (get (str "candidates") d))
    ]
  ]

  -- "".join(str(p.get("text", "")) for p in parts if isinstance(p, dict))
  unfoldable pub joined_text : Items → Str
  joined_text nil = []
  joined_text (cons v vs) = elim (dict? v) [
    | none ↦ joined_text vs
    | some p ↦ to_str c (or_else (text []) (get (str "text") p)) ++ joined_text vs
  ]

  -- the texts of d.get("parts", [])
  abbrev pub parts_text : Fields → Result Str
  parts_text d = do
    parts ← iterate (or_else (arr nil) (get (str "parts") d))
    ok (joined_text parts)

  -- str(_ROLE_TO_INTERNAL.get(role, item.get("role", "user"))): a list or a dict is no key
  abbrev pub role_of : Option Json → Result Str
  role_of none = ok (str "user")
  role_of (some (text s)) = ok (if eq s (str "model") then str "assistant" else s)
  role_of (some null) = ok (c.repr_of null)
  role_of (some (boolean b)) = ok (c.repr_of (boolean b))
  role_of (some (number n)) = ok (c.repr_of (number n))
  role_of (some (arr xs)) = raised
  role_of (some (obj d)) = raised

  -- one round of the loop over the contents
  unfoldable pub turn_of : Fields → Result Turn
  turn_of item = do
    role ← role_of (get (str "role") item)
    s ← parts_text item
    ok (record { role = role; text = s })

  -- that loop
  unfoldable pub turns_of : Items → Result (List Turn)
  turns_of nil = ok []
  turns_of (cons v vs) = elim (dict? v) [
    | none ↦ turns_of vs
    | some item ↦ turn_of item >>= λ t. turns_of vs >>= λ turns. ok (t ∷ turns)
  ]

  -- the turn for the system instruction, unless its text is empty
  unfoldable pub system_turns : Fields → Result (List Turn)
  system_turns data_ = elim (system_instruction data_) [
    | none ↦ ok []
    | some d ↦ do
      s ← parts_text d
      ok (if truthy s then record { role = str "system"; text = s } ∷ [] else [])
  ]

  unfoldable pub extract_turns : List ℕ → Result (List Turn)
  extract_turns body = do
    data_ ← read_dict c body
    system ← system_turns data_
    xs ← iterate (contents data_)
    turns ← turns_of xs
    ok (system ++ turns)

  unfoldable pub rebuild : List ℕ → List Turn → Result (List ℕ)
  rebuild body turns = do
    data_ ← read_dict c body
    let (data', remaining) = take_system data_ turns
    _ ← iterate (contents data')
    write c (put (str "contents") (rebuilt (contents data') remaining) data')

  unfoldable pub response_text : Fields → Result Str
  response_text data_ = elim (first_candidate data_) [
    | none ↦ ok []
    | some first ↦ elim (dict? (or_else (obj stop) (get (str "content") first))) [
      | none ↦ ok []
      | some content ↦ parts_text content
    ]
  ]

  unfoldable pub parse_response : List ℕ → Result Str
  parse_response body = read_dict c body >>= response_text

  unfoldable pub respond : Fields → Str → Result Fields
  respond data_ s = elim (first_candidate data_) [
    | none ↦ ok data_
    | some first ↦ do
      content ← as_dict (or_else (obj stop) (get (str "content") first))
      ok (
          put (str "candidates")
            (arr (
              set_first
                (obj (put (str "content") (obj (put (str "parts") (one_part s) content)) first))
                (items (get (str "candidates") data_))))
            data_)
  ]

  unfoldable pub rebuild_response : List ℕ → Str → Result (List ℕ)
  rebuild_response body s = do data_ ← read_dict c body; data' ← respond data_ s; write c data'

  -- `GeminiAdapter`
  unfoldable pub gemini : Adapter (List ℕ)
  gemini = record {
    name = str "gemini";
    matches = matches;
    extract_turns = extract_turns;
    rebuild = rebuild;
    parse_response = parse_response;
    rebuild_response = rebuild_response;
  }
