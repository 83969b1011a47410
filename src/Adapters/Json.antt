-- ===== src/Adapters/Json.antt =====
-- The values of Python's json module, and what the adapters do with them. The reader and the
-- writer are the library's, so they are parameters.
use dlp_server.Base.{
  ℕ, ◌≡◌, refl, ◌≢◌, Bool, true, false, Option, none, some, List, [], ◌∷◌, Result, ok, raised,
  ◌>>=◌, if◌then◌else◌, arith,
}
use dlp_server.Base.Str.{Str, str, eq, eq_iff, eq_refl}

-- A number is kept as its text. The items of a list and the entries of a dict are data types of
-- their own, the latter in insertion order.
mutual
  pub data Json : Type 0 where
    null : Json
    boolean : Bool → Json
    number : Str → Json
    text : Str → Json
    arr : Items → Json
    obj : Fields → Json

  pub data Items : Type 0 where
    nil : Items
    cons : Json → Items → Items

  pub data Fields : Type 0 where
    stop : Fields
    field : Str → Json → Fields → Fields

-- json.loads, json.dumps(…, ensure_ascii=False), str.encode("utf-8"), and str() of a value that is
-- not a str
pub record Codec : Type 0 where
  pub loads : List ℕ → Result Json
  pub dumps : Json → Str
  pub encode : Str → Result (List ℕ)
  pub repr_of : Json → Str

-- d.get(k)
unfoldable pub get : Str → Fields → Option Json
get k stop = none
get k (field j v d) = let rest = get k d in if eq j k then some v else rest

-- d[k] = v
unfoldable pub put : Str → Json → Fields → Fields
put k v stop = field k v stop
put k v (field j w d) = let rest = put k v d in if eq j k then field j v d else field j w rest

pub get-put :
    (k j : Str) (v : Json) (d : Fields) → get j (put k v d) ≡ (if eq k j then some v else get j d)
unfolding get put
get-put k j v stop = ground arith
get-put k j v (field i w d) = ground (arith, eq_iff k j, eq_iff i k, eq_iff i j, get-put k j v d)

pub get-put_self : (k : Str) (v : Json) (d : Fields) → get k (put k v d) ≡ some v
get-put_self k v d = rw (get-put k k v d) (rw (eq_refl k) refl)

pub get-put_other :
    (k j : Str) (v : Json) (d : Fields) → eq k j ≡ false → get j (put k v d) ≡ get j d
get-put_other k j v d e = rw (get-put k j v d) (rw e refl)

-- A dict has each of its keys once.
unfoldable mutual
  pub HasUniqueKeys : Json → Type 0
  HasUniqueKeys null = Unit
  HasUniqueKeys (boolean b) = Unit
  HasUniqueKeys (number n) = Unit
  HasUniqueKeys (text s) = Unit
  HasUniqueKeys (arr xs) = AllUnique xs
  HasUniqueKeys (obj d) = UniqueKeys d

  pub AllUnique : Items → Type 0
  AllUnique nil = Unit
  AllUnique (cons v vs) = HasUniqueKeys v × AllUnique vs

  pub UniqueKeys : Fields → Type 0
  UniqueKeys stop = Unit
  UniqueKeys (field k v d) = (get k d ≡ none) × HasUniqueKeys v × UniqueKeys d

-- what the libraries document: reading gives dicts whose keys differ, the text of a value is not
-- empty, and reading it gives the value again
pub record IsFaithful (c : Codec) : Type 0 where
  pub loads_unique : (body : List ℕ) (j : Json) → c.loads body ≡ ok j → HasUniqueKeys j
  pub dumps_nonempty : (j : Json) → c.encode (c.dumps j) ≢ ok []
  pub loads_dumps :
      (j : Json) (body : List ℕ)
      → HasUniqueKeys j
      → c.encode (c.dumps j) ≡ ok body
      → c.loads body ≡ ok j

-- d.get(k, default)
abbrev pub or_else : Json → Option Json → Json
or_else d none = d
or_else d (some v) = v

-- the dict on which `.get` is called; another value raises
abbrev pub as_dict : Json → Result Fields
as_dict (obj d) = ok d
as_dict null = raised
as_dict (boolean b) = raised
as_dict (number n) = raised
as_dict (text s) = raised
as_dict (arr xs) = raised

-- isinstance(v, dict), with the dict
abbrev pub dict? : Json → Option Fields
dict? (obj d) = some d
dict? null = none
dict? (boolean b) = none
dict? (number n) = none
dict? (text s) = none
dict? (arr xs) = none

-- isinstance(v, list), with the items; `none` is None
abbrev pub list? : Option Json → Option Items
list? (some (arr xs)) = some xs
list? (some null) = none
list? (some (boolean b)) = none
list? (some (number n)) = none
list? (some (text s)) = none
list? (some (obj d)) = none
list? none = none

abbrev pub is_list : Option Json → Bool
is_list v = elim (list? v) [ none ↦ false | some xs ↦ true ]

-- the characters of a text, and the keys of a dict
unfoldable pub chars : Str → Items
chars [] = nil
chars (c ∷ s) = cons (text (c ∷ [])) (chars s)

unfoldable pub keys : Fields → Items
keys stop = nil
keys (field k v d) = cons (text k) (keys d)

-- `for x in v`, which raises for a value that cannot be iterated
abbrev pub iterate : Json → Result Items
iterate (arr xs) = ok xs
iterate (text s) = ok (chars s)
iterate (obj d) = ok (keys d)
iterate null = raised
iterate (boolean b) = raised
iterate (number n) = raised

-- a chain of tests of which each needs the one before
abbrev pub and_then {ℓ κ} : {A : Type ℓ} {B : Type κ} → Option A → (A → Option B) → Option B
and_then none f = none
and_then (some a) f = f a

pub and_then-some {ℓ κ} :
    {A : Type ℓ} {B : Type κ} (o : Option A) (f : A → Option B) {b : B}
    → and_then o f ≡ some b
    → (a : A) × (o ≡ some a) × (f a ≡ some b)
and_then-some none f h = cc
and_then-some (some a) f h = (a, refl, h)

abbrev pub first? : Items → Option Json
first? nil = none
first? (cons v vs) = some v

-- xs[-1]
unfoldable pub last? : Items → Option Json
last? nil = none
last? (cons v nil) = some v
last? (cons v (cons w vs)) = last? (cons w vs)

-- xs[-1] and xs[0], after they were changed
unfoldable pub set_last : Json → Items → Items
set_last w nil = nil
set_last w (cons v nil) = cons w nil
set_last w (cons v (cons v' vs)) = cons v (set_last w (cons v' vs))

abbrev pub set_first : Json → Items → Items
set_first w nil = nil
set_first w (cons v vs) = cons w vs

module _ (c : Codec) where
  -- str(v)
  abbrev pub to_str : Json → Str
  to_str (text s) = s
  to_str null = c.repr_of null
  to_str (boolean b) = c.repr_of (boolean b)
  to_str (number n) = c.repr_of (number n)
  to_str (arr xs) = c.repr_of (arr xs)
  to_str (obj d) = c.repr_of (obj d)

  -- json.loads(body or b"{}")
  unfoldable pub read : List ℕ → Result Json
  read [] = c.loads (str "{}")
  read (b ∷ bs) = c.loads (b ∷ bs)

  -- the dict that the methods but `matches` take the body for
  unfoldable pub read_dict : List ℕ → Result Fields
  read_dict body = read body >>= as_dict

  -- json.dumps(data, ensure_ascii=False).encode("utf-8")
  unfoldable pub write : Fields → Result (List ℕ)
  write d = c.encode (c.dumps (obj d))
