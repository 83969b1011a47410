-- ===== src/Adapters/Unique.antt =====
-- app/adapters: the changes that the adapters make to a body keep the keys of every dict distinct.
use dlp_server.Base.{ok, ◌≡◌, refl, subst, some, inl, inr, arith, Bool-cases, Option-cases}
use dlp_server.Base.Str.{Str, eq, eq_iff}
use dlp_server.Adapters.Json.{
  Json, obj, Fields, stop, field, get, put, get-put, or_else, as_dict, HasUniqueKeys, UniqueKeys,
}
use dlp_server.Adapters.Written.{as_dict-ok}

pub get-HasUniqueKeys :
    (k : Str) (d : Fields) (v : Json) → UniqueKeys d → get k d ≡ some v → HasUniqueKeys v
unfolding get HasUniqueKeys
get-HasUniqueKeys k stop v u h = cc
get-HasUniqueKeys k (field j w d) v u h = elim (Bool-cases (eq j k)) [
  | inl e ↦ subst HasUniqueKeys (ground arith) (u.1)
  | inr e ↦ get-HasUniqueKeys k d v u.2 (ground arith)
]

pub put-UniqueKeys :
    (k : Str) (v : Json) (d : Fields) → HasUniqueKeys v → UniqueKeys d → UniqueKeys (put k v d)
unfolding get put HasUniqueKeys
put-UniqueKeys k v stop u w = (refl, u, tt)
put-UniqueKeys k v (field j x d) u w = elim (Bool-cases (eq j k)) [
  | inl e ↦ rw e (w.0, u, w.2)
  | inr e ↦
      rw e
        (ground (arith, get-put k j v d, eq_iff k j, eq_iff j k), w.1, put-UniqueKeys k v d u w.2)
]

-- the dict that stands at a key, or the empty one
pub as_dict-UniqueKeys :
    (k : Str) (d m : Fields)
    → UniqueKeys d
    → as_dict (or_else (obj stop) (get k d)) ≡ ok m
    → UniqueKeys m
unfolding HasUniqueKeys
as_dict-UniqueKeys k d m u h = elim (Option-cases (get k d)) [
  | inl e ↦ let q : obj stop ≡ obj m = as_dict-ok _ m (rw e at h) in subst HasUniqueKeys q tt
  | inr (v, e) ↦ subst HasUniqueKeys (as_dict-ok v m (rw e at h)) (get-HasUniqueKeys k d v u e)
]
