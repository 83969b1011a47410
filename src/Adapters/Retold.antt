-- ===== src/Adapters/Retold.antt =====
-- app/adapters/gateway.py: what `extract_turns` reads of the body that `rebuild` wrote.
use dlp_server.Base.{
  ℕ, ◌<◌, ◌≡◌, refl, subst, ◌∙◌, ap, false, none, some, List, [], ◌∷◌, inl, inr, ok, arith, length,
  get_last?, Option-cases,
}
use dlp_server.Base.Str.{Str, str, eq, eq_refl}
use dlp_server.Models.{Turn}
use dlp_server.Adapters.Json.{
  Json, text, arr, Items, nil, cons, Fields, Codec, IsFaithful, get, put, get-put, dict?, read_dict,
  write, HasUniqueKeys, AllUnique, UniqueKeys,
}
use dlp_server.Adapters.Unique.{get-HasUniqueKeys, put-UniqueKeys}
use dlp_server.Adapters.Written.{dict?-obj, read_dict-UniqueKeys, read_dict-write}
use dlp_server.Adapters.Gateway.{turn_of, turns_of, extract_turns, set_contents, rebuild}

-- every item of the list is a dict
abbrev pub AllDicts : Items → Type 0
AllDicts nil = Unit
AllDicts (cons v vs) = ((d : Fields) × (dict? v ≡ some d)) × AllDicts vs

-- The turns with the texts of others, as far as these go.
abbrev pub retell : List Turn → List Turn → List Turn
retell [] us = []
retell (t ∷ ts) [] = t ∷ ts
retell (t ∷ ts) (u ∷ us) = record { role = t.role; text = u.text } ∷ retell ts us

-- Turns that get no text stay as they are.
get_last?-retell :
    (ts us : List Turn) → length us < length ts → get_last? (retell ts us) ≡ get_last? ts
get_last?-retell [] us h = absurd (omega arith)
get_last?-retell (t ∷ ts) [] h = refl
get_last?-retell (t ∷ []) (u ∷ us) h = absurd (omega arith)
get_last?-retell (t ∷ s ∷ ts) (u ∷ []) h = refl
get_last?-retell (t ∷ s ∷ ts) (u ∷ w ∷ us) h = get_last?-retell (s ∷ ts) (w ∷ us) (omega arith)

module _ (c : Codec) where
  turns_of-skip : (x : Json) (xs : Items) → dict? x ≡ none → turns_of c (cons x xs) ≡ turns_of c xs
  unfolding turns_of
  turns_of-skip x xs n = rw (n, turns_of) refl

  set_contents-skip :
      (x : Json) (xs : Items) (t : Turn) (turns : List Turn)
      → dict? x ≡ none
      → set_contents (cons x xs) (t ∷ turns) ≡ cons x (set_contents xs turns)
  unfolding set_contents
  set_contents-skip x xs t turns n = rw (n, set_contents) refl

  turn_of-put :
      (s : Str) (d : Fields)
      → turn_of c (put (str "content") (text s) d) ≡ record { role = (turn_of c d).role; text = s }
  unfolding eq
  turn_of-put s d =
      rw (get-put (str "content") (str "role") (text s) d)
        (rw (get-put (str "content") (str "content") (text s) d) refl)

  turns_of-set_contents :
      (xs : Items) (turns : List Turn)
      → AllDicts xs
      → turns_of c (set_contents xs turns) ≡ retell (turns_of c xs) turns
  unfolding turns_of set_contents
  turns_of-set_contents nil turns h = refl
  turns_of-set_contents (cons v vs) [] h = let (d, e) = h.0 in rw (dict?-obj v d e) refl
  turns_of-set_contents (cons v vs) (t ∷ turns) h =
      let (d, e) = h.0 in
      rw (dict?-obj v d e) (rw (turn_of-put t.text d, turns_of-set_contents vs turns h.1) refl)

  set_contents-AllUnique :
      (xs : Items) (turns : List Turn) → AllUnique xs → AllUnique (set_contents xs turns)
  unfolding HasUniqueKeys set_contents
  set_contents-AllUnique nil turns u = u
  set_contents-AllUnique (cons v vs) [] u = u
  set_contents-AllUnique (cons v vs) (t ∷ turns) u = elim (Option-cases (dict? v)) [
    | inl e ↦ rw (e, set_contents) (u.0, set_contents-AllUnique vs turns u.1)
    | inr (d, e) ↦
        rw (e, set_contents)
          (
            put-UniqueKeys (str "content") (text t.text) d tt
                (subst HasUniqueKeys (dict?-obj v d e) u.0),
            set_contents-AllUnique vs turns u.1,
          )
  ]

  extract_turns-read :
      (data_ : Fields) (xs : Items) (body : List ℕ)
      → read_dict c body ≡ ok data_
      → get (str "messages") data_ ≡ some (arr xs)
      → extract_turns c body ≡ ok (turns_of c xs)
  unfolding extract_turns
  extract_turns-read data_ xs body r m = rw r (rw m refl)

  module _ (f : IsFaithful c) where
    -- What `rebuild` wrote is read again, whatever the messages are.
    pub extract_turns-rebuild :
        (data_ : Fields) (xs : Items) (turns : List Turn) (body body' : List ℕ)
        → read_dict c body ≡ ok data_
        → get (str "messages") data_ ≡ some (arr xs)
        → rebuild c body turns ≡ ok body'
        → (extract_turns c body ≡ ok (turns_of c xs))
          × (extract_turns c body' ≡ ok (turns_of c (set_contents xs turns)))
          × (read_dict c body' ≡ ok (put (str "messages") (arr (set_contents xs turns)) data_))
    unfolding rebuild extract_turns HasUniqueKeys
    extract_turns-rebuild data_ xs turns body body' r m h =
        let u : UniqueKeys data_ = read_dict-UniqueKeys c f body data_ r in
        let w : AllUnique (set_contents xs turns) =
          set_contents-AllUnique xs turns (get-HasUniqueKeys (str "messages") data_ (arr xs) u m) in
        let written : write c (put (str "messages") (arr (set_contents xs turns)) data_)
            ≡ ok body' =
          rw m at (rw r at h) in
        let back : read_dict c body'
            ≡ ok (put (str "messages") (arr (set_contents xs turns)) data_) =
          read_dict-write c f (put (str "messages") (arr (set_contents xs turns)) data_) body'
            (put-UniqueKeys (str "messages") (arr (set_contents xs turns)) data_ w u) written in
        (
          extract_turns-read data_ xs body r m,
          extract_turns-read _ _ body' back (
              get-put (str "messages") (str "messages") _ data_
              ∙ rw (eq_refl (str "messages")) refl),
          back,
        )

    -- `rebuild` puts the texts of the turns into the messages: with a faithful codec and messages
    -- that are all dicts, `extract_turns` of the new body gives the turns of the old one with the
    -- new texts, as far as these go, and every other key of the body has the value it had.
    pub rebuild-retell :
        (data_ : Fields) (xs : Items) (turns : List Turn) (body body' : List ℕ)
        → read_dict c body ≡ ok data_
        → get (str "messages") data_ ≡ some (arr xs)
        → AllDicts xs
        → rebuild c body turns ≡ ok body'
        → (old : List Turn) × (data' : Fields) × (extract_turns c body ≡ ok old)
          × (extract_turns c body' ≡ ok (retell old turns))
          × (read_dict c body' ≡ ok data')
          × ((k : Str) → eq (str "messages") k ≡ false → get k data' ≡ get k data_)
    rebuild-retell data_ xs turns body body' r m a h =
        let (before, after, back) = extract_turns-rebuild data_ xs turns body body' r m h in
        (
          turns_of c xs,
          put (str "messages") (arr (set_contents xs turns)) data_,
          before,
          after ∙ ap (λ (ts : List Turn). ok ts) (turns_of-set_contents xs turns a),
          back,
          λ k e. get-put (str "messages") k (arr (set_contents xs turns)) data_ ∙ rw e refl,
        )

    -- A message that is no dict in front of the others shifts them against the turns: with a
    -- faithful codec, and dicts after it, when `rebuild` gets as many turns as `extract_turns`
    -- found, at least one, the last turn of the rebuilt body is the last turn of the body before,
    -- whatever text it should have got.
    pub rebuild_misaligned :
        (data_ : Fields) (x : Json) (xs : Items) (old : List Turn) (t : Turn) (turns : List Turn)
        (body body' : List ℕ)
        → read_dict c body ≡ ok data_
        → get (str "messages") data_ ≡ some (arr (cons x xs))
        → dict? x ≡ none
        → AllDicts xs
        → extract_turns c body ≡ ok old
        → length old ≡ length (t ∷ turns)
        → rebuild c body (t ∷ turns) ≡ ok body'
        → (new : List Turn) × (extract_turns c body' ≡ ok new) × (get_last? new ≡ get_last? old)
    rebuild_misaligned data_ x xs old t turns body body' r m n a o l h =
        let (before, after, back) =
          extract_turns-rebuild data_ (cons x xs) (t ∷ turns) body body' r m h in
        let e : turns_of c xs ≡ old = cc (before, o, turns_of-skip x xs n) in
        (
          turns_of c (set_contents (cons x xs) (t ∷ turns)),
          after,
          ap (λ ts. get_last? ts)
                (ap (λ (vs : Items). turns_of c vs) (set_contents-skip x xs t turns n)
                  ∙ turns_of-skip x (set_contents xs turns) n
                  ∙ turns_of-set_contents xs turns a
                  ∙ ap (λ ts. retell ts turns) e)
              ∙ get_last?-retell old turns (omega (arith, l)),
        )
