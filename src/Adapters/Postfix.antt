-- ===== src/Adapters/Postfix.antt =====
-- A faithful codec, for the examples: values in postfix notation, read by a machine with a stack.
use dlp_server.Base.{
  ℕ, ◌+◌, ◌-◌, ◌≡◌, ◌≢◌, refl, subst, ◌∙◌, ap, Bool, true, false, ◌&&◌, Option, none, some, List,
  [], ◌∷◌, inl, inr, Result, ok, raised, arith, Bool-cases, if◌then◌else◌, ◌==◌,
}
use dlp_server.Base.Str.{Str}
use dlp_server.Adapters.Json.{
  Json, null, boolean, number, text, arr, obj, Items, nil, cons, Fields, stop, field, Codec,
  IsFaithful, get, HasUniqueKeys, AllUnique, UniqueKeys,
}

pub data Cell : Type 0 where
  chars : Str → Cell
  value : Json → Cell
  items : Items → Cell
  entries : Fields → Cell

pub data Op : Type 0 where
  push : Cell → Op
  char : ℕ → Op
  as_number : Op
  as_text : Op
  as_arr : Op
  as_obj : Op
  as_item : Op
  as_entry : Op

op : ℕ → Op
op n =
    if n == 0
    then push (chars [])
    else if n == 1
    then push (value null)
    else if n == 2
    then push (value (boolean true))
    else if n == 3
    then push (value (boolean false))
    else if n == 4
    then push (items nil)
    else if n == 5
    then push (entries stop)
    else if n == 6
    then as_number
    else if n == 7
    then as_text
    else if n == 8
    then as_arr
    else if n == 9
    then as_obj
    else if n == 10
    then as_item
    else if n == 11
    then as_entry
    else char (n - 12)

apply : Op → List Cell → List Cell
apply (push x) st = x ∷ st
apply (char c) (chars s ∷ st) = chars (c ∷ s) ∷ st
apply as_number (chars s ∷ st) = value (number s) ∷ st
apply as_text (chars s ∷ st) = value (text s) ∷ st
apply as_arr (items xs ∷ st) = value (arr xs) ∷ st
apply as_obj (entries d ∷ st) = value (obj d) ∷ st
apply as_item (value v ∷ items vs ∷ st) = items (cons v vs) ∷ st
apply as_entry (chars k ∷ value v ∷ entries d ∷ st) = entries (field k v d) ∷ st
apply o st = []

run : List ℕ → List Cell → List Cell
run [] st = st
run (n ∷ rest) st = run rest (apply (op n) st)

-- The code of a value, in front of the signs that follow it.
code_str : Str → List ℕ → List ℕ
code_str [] rest = 0 ∷ rest
code_str (c ∷ s) rest = code_str s ((c + 12) ∷ rest)

mutual
  code_json : Json → List ℕ → List ℕ
  code_json null rest = 1 ∷ rest
  code_json (boolean true) rest = 2 ∷ rest
  code_json (boolean false) rest = 3 ∷ rest
  code_json (number s) rest = code_str s (6 ∷ rest)
  code_json (text s) rest = code_str s (7 ∷ rest)
  code_json (arr xs) rest = code_items xs (8 ∷ rest)
  code_json (obj d) rest = code_fields d (9 ∷ rest)

  code_items : Items → List ℕ → List ℕ
  code_items nil rest = 4 ∷ rest
  code_items (cons v vs) rest = code_items vs (code_json v (10 ∷ rest))

  code_fields : Fields → List ℕ → List ℕ
  code_fields stop rest = 5 ∷ rest
  code_fields (field k v d) rest = code_fields d (code_json v (code_str k (11 ∷ rest)))

op-char : (c : ℕ) → op (c + 12) ≡ char c
unfolding op
op-char c = ground arith

run-code_str :
    (s : Str) (rest : List ℕ) (st : List Cell) → run (code_str s rest) st ≡ run rest (chars s ∷ st)
unfolding run code_str apply op
run-code_str [] rest st = refl
run-code_str (c ∷ s) rest st = run-code_str s ((c + 12) ∷ rest) st ∙ rw (op-char c) refl

mutual
  unfolding run code_json apply op

  run-code_json :
      (v : Json) (rest : List ℕ) (st : List Cell)
      → run (code_json v rest) st ≡ run rest (value v ∷ st)
  run-code_json null rest st = refl
  run-code_json (boolean true) rest st = refl
  run-code_json (boolean false) rest st = refl
  run-code_json (number s) rest st = run-code_str s (6 ∷ rest) st
  run-code_json (text s) rest st = run-code_str s (7 ∷ rest) st
  run-code_json (arr xs) rest st = run-code_items xs (8 ∷ rest) st
  run-code_json (obj d) rest st = run-code_fields d (9 ∷ rest) st

  run-code_items :
      (xs : Items) (rest : List ℕ) (st : List Cell)
      → run (code_items xs rest) st ≡ run rest (items xs ∷ st)
  run-code_items nil rest st = refl
  run-code_items (cons v vs) rest st =
      run-code_items vs (code_json v (10 ∷ rest)) st ∙ run-code_json v (10 ∷ rest) (items vs ∷ st)

  run-code_fields :
      (d : Fields) (rest : List ℕ) (st : List Cell)
      → run (code_fields d rest) st ≡ run rest (entries d ∷ st)
  run-code_fields stop rest st = refl
  run-code_fields (field k v d) rest st =
      run-code_fields d (code_json v (code_str k (11 ∷ rest))) st
      ∙ run-code_json v (code_str k (11 ∷ rest)) (entries d ∷ st)
      ∙ run-code_str k (11 ∷ rest) (value v ∷ entries d ∷ st)

-- the keys of every dict differ, as a test
is_none : Option Json → Bool
is_none none = true
is_none (some v) = false

mutual
  unique : Json → Bool
  unique null = true
  unique (boolean b) = true
  unique (number n) = true
  unique (text s) = true
  unique (arr xs) = unique_items xs
  unique (obj d) = unique_fields d

  unique_items : Items → Bool
  unique_items nil = true
  unique_items (cons v vs) = unique v && unique_items vs

  unique_fields : Fields → Bool
  unique_fields stop = true
  unique_fields (field k v d) = is_none (get k d) && (unique v && unique_fields d)

mutual
  unfolding unique HasUniqueKeys is_none

  unique_sound : (v : Json) → unique v ≡ true → HasUniqueKeys v
  unique_sound null h = tt
  unique_sound (boolean b) h = tt
  unique_sound (number n) h = tt
  unique_sound (text s) h = tt
  unique_sound (arr xs) h = unique_items_sound xs h
  unique_sound (obj d) h = unique_fields_sound d h

  unique_items_sound : (xs : Items) → unique_items xs ≡ true → AllUnique xs
  unique_items_sound nil h = tt
  unique_items_sound (cons v vs) h =
      (unique_sound v (ground arith), unique_items_sound vs (ground arith))

  unique_fields_sound : (d : Fields) → unique_fields d ≡ true → UniqueKeys d
  unique_fields_sound stop h = tt
  unique_fields_sound (field k v d) h =
      (ground arith, unique_sound v (ground arith), unique_fields_sound d (ground arith))

mutual
  unfolding unique HasUniqueKeys is_none

  unique_complete : (v : Json) → HasUniqueKeys v → unique v ≡ true
  unique_complete null u = refl
  unique_complete (boolean b) u = refl
  unique_complete (number n) u = refl
  unique_complete (text s) u = refl
  unique_complete (arr xs) u = unique_items_complete xs u
  unique_complete (obj d) u = unique_fields_complete d u

  unique_items_complete : (xs : Items) → AllUnique xs → unique_items xs ≡ true
  unique_items_complete nil u = refl
  unique_items_complete (cons v vs) u = rw (unique_complete v u.0) (unique_items_complete vs u.1)

  unique_fields_complete : (d : Fields) → UniqueKeys d → unique_fields d ≡ true
  unique_fields_complete stop u = refl
  unique_fields_complete (field k v d) u =
      rw (u.0) (rw (unique_complete v u.1) (unique_fields_complete d u.2))

-- the value that is left alone on the stack
result : List Cell → Result Json
result (value v ∷ []) = if unique v then ok v else raised
result st = raised

unfoldable pub postfix : Codec
unfolding run result code_json unique apply op code_str is_none
postfix = record {
  loads = λ body. result (run body []);
  dumps = λ v. code_json v [];
  encode = λ s. ok s;
  repr_of = λ v. code_json v [];
}

result_unique : (st : List Cell) (j : Json) → result st ≡ ok j → HasUniqueKeys j
unfolding result
result_unique (value v ∷ []) j h = elim (Bool-cases (unique v)) [
  | inl e ↦ subst HasUniqueKeys (ground arith) (unique_sound v e)
  | inr e ↦ absurd (ground arith)
]
result_unique st j h = cc

result-value : (j : Json) → HasUniqueKeys j → result (run (code_json j []) []) ≡ ok j
unfolding result run
result-value j u = rw (run-code_json j [] []) (rw (unique_complete j u) refl)

code_json-ne : (v : Json) → code_json v [] ≢ []
unfolding run
code_json-ne v h = cc (run-code_json v [] [], ap (λ (b : List ℕ). run b []) h)

pub postfix-IsFaithful : IsFaithful postfix
unfolding postfix
postfix-IsFaithful = record {
  loads_unique = λ body j h. result_unique (run body []) j h;
  dumps_nonempty = λ j h. code_json-ne j (cc);
  loads_dumps = λ j body u h.
      subst (λ (b : List ℕ). result (run b []) ≡ ok j) {x = code_json j []} {y = body} (cc)
        (result-value j u);
}
