-- ===== src/Adapters/Written.antt =====
-- app/adapters: a body that an adapter wrote is read again as the dict that was written.
use dlp_server.Base.{ℕ, ◌≡◌, refl, ◌∙◌, ap, some, List, [], ◌∷◌, ok, bind-ok}
use dlp_server.Base.Str.{str}
use dlp_server.Adapters.Json.{
  Json, null, boolean, number, text, arr, obj, Fields, Codec, IsFaithful, as_dict, dict?, read,
  read_dict, write, HasUniqueKeys, UniqueKeys,
}

pub as_dict-ok : (v : Json) (d : Fields) → as_dict v ≡ ok d → v ≡ obj d
as_dict-ok (obj e) d h = cc
as_dict-ok null d h = cc
as_dict-ok (boolean b) d h = cc
as_dict-ok (number n) d h = cc
as_dict-ok (text s) d h = cc
as_dict-ok (arr xs) d h = cc

pub dict?-obj : (v : Json) (d : Fields) → dict? v ≡ some d → v ≡ obj d
dict?-obj (obj e) d h = cc
dict?-obj null d h = cc
dict?-obj (boolean b) d h = cc
dict?-obj (number n) d h = cc
dict?-obj (text s) d h = cc
dict?-obj (arr xs) d h = cc

module _ (c : Codec) (f : IsFaithful c) where
  pub read-HasUniqueKeys : (body : List ℕ) (j : Json) → read c body ≡ ok j → HasUniqueKeys j
  unfolding read
  read-HasUniqueKeys [] j h = f.loads_unique (str "{}") j h
  read-HasUniqueKeys (b ∷ bs) j h = f.loads_unique (b ∷ bs) j h

  pub read_dict-UniqueKeys : (body : List ℕ) (d : Fields) → read_dict c body ≡ ok d → UniqueKeys d
  unfolding read_dict HasUniqueKeys
  read_dict-UniqueKeys body d h =
      let (j, e, q) = bind-ok (read c body) (λ v. as_dict v) h in
      read-HasUniqueKeys body (obj d) (e ∙ ap (λ (v : Json). ok v) (as_dict-ok j d q))

  pub read_dict-write :
      (d : Fields) (body : List ℕ) → UniqueKeys d → write c d ≡ ok body → read_dict c body ≡ ok d
  unfolding read_dict read write HasUniqueKeys
  read_dict-write d [] u h = absurd (f.dumps_nonempty (obj d) h)
  read_dict-write d (b ∷ bs) u h = rw (f.loads_dumps (obj d) (b ∷ bs) u h) refl
