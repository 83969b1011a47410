-- ===== src/Session/History.antt =====
-- accumulator.py: what the entity history says after a turn.
use dlp_server.Base.{
  ℕ, suc, ◌+◌, ◌≡◌, Bool, false, Option, none, some, List, [], ◌∷◌, if◌then◌else◌, arith,
}
use dlp_server.Base.Str.{Str, eq, eq_iff}
use dlp_server.Models.{Span}
use dlp_server.Session.Store.{EntityKey, EntityRecord}
use dlp_server.Session.Accumulator.{has_key, register, register_spans, hash_value}

-- entities[key].count, 0 where there is none
pub count_of : EntityKey → List EntityRecord → ℕ
count_of key [] = 0
count_of key (r ∷ rest) = let later = count_of key rest in if has_key key r then r.count else later

-- entities[key].first_turn
pub first_turn_of : EntityKey → List EntityRecord → Option ℕ
first_turn_of key [] = none
first_turn_of key (r ∷ rest) =
    let later = first_turn_of key rest in if has_key key r then some r.first_turn else later

abbrev pub same_key : EntityKey → EntityKey → Bool
same_key (type, value_hash) (type', value_hash') =
    if eq type type' then eq value_hash value_hash' else false

-- how many of the spans have the key
pub mentions : {F : Type 0} → (Str → Str) → EntityKey → List (Span F) → ℕ
mentions sha256_hex key [] = 0
mentions sha256_hex key (s ∷ rest) =
    let later = mentions sha256_hex key rest in
    if same_key (s.type, hash_value sha256_hex s.value) key then suc later else later

abbrev pub or_else : Option ℕ → ℕ → ℕ
or_else none n = n
or_else (some m) n = m

count_of-register :
    (k key : EntityKey) (turn_index : ℕ) (entities : List EntityRecord)
    → count_of key (register k turn_index entities)
      ≡ (if same_key k key then suc (count_of key entities) else count_of key entities)
unfolding count_of register
count_of-register k key turn_index [] = ground (arith, eq_iff k.0 key.0, eq_iff k.1 key.1)
count_of-register k key turn_index (r ∷ rest) = ground (
  arith,
  eq_iff k.0 key.0,
  eq_iff k.1 key.1,
  eq_iff r.type k.0,
  eq_iff r.value_hash k.1,
  eq_iff r.type key.0,
  eq_iff r.value_hash key.1,
  count_of-register k key turn_index rest,
)

first_turn_of-register :
    (k key : EntityKey) (turn_index : ℕ) (entities : List EntityRecord)
    → first_turn_of key (register k turn_index entities) ≡ (
        if same_key k key
        then some (or_else (first_turn_of key entities) turn_index)
        else first_turn_of key entities)
unfolding first_turn_of register
first_turn_of-register k key turn_index [] = ground (arith, eq_iff k.0 key.0, eq_iff k.1 key.1)
first_turn_of-register k key turn_index (r ∷ rest) = ground (
  arith,
  eq_iff k.0 key.0,
  eq_iff k.1 key.1,
  eq_iff r.type k.0,
  eq_iff r.value_hash k.1,
  eq_iff r.type key.0,
  eq_iff r.value_hash key.1,
  first_turn_of-register k key turn_index rest,
)

-- After the spans of a turn are registered, the count of every key is its count before plus the
-- number of the turn's spans that have it, so nothing is lost or counted twice; and a key that
-- was known keeps the turn in which it was first seen.
pub register_spans_counts :
    {F : Type 0} (sha256_hex : Str → Str) (key : EntityKey) (spans : List (Span F)) (turn_index : ℕ)
    (entities : List EntityRecord)
    → let after = register_spans sha256_hex spans turn_index entities in
      (count_of key after ≡ count_of key entities + mentions sha256_hex key spans)
      × ((n : ℕ) → first_turn_of key entities ≡ some n → first_turn_of key after ≡ some n)
unfolding register_spans mentions
register_spans_counts sha256_hex key [] turn_index entities = (omega arith, λ n h. h)
register_spans_counts sha256_hex key (s ∷ rest) turn_index entities =
    let k : EntityKey = (s.type, hash_value sha256_hex s.value) in
    let later =
      register_spans_counts sha256_hex key rest turn_index (register k turn_index entities) in
    (
      ground (arith, later.0, count_of-register k key turn_index entities),
      λ n h. later.1 n (ground (arith, h, first_turn_of-register k key turn_index entities)),
    )
