-- ===== src/Adapters/Answered.antt =====
-- app/adapters/gateway.py: what `parse_response` reads of the body that `rebuild_response` wrote.
use dlp_server.Base.{
  bind-ok, ℕ, ◌≡◌, refl, subst, ◌∙◌, ap, Bool, true, false, Option, none, some, List, [], inl, inr,
  ok, if◌then◌else◌, ◌||◌, Option-cases,
}
use dlp_server.Base.Str.{Str, str, eq}
use dlp_server.Adapters.Json.{
  text, arr, obj, Items, cons, Fields, stop, Codec, IsFaithful, get, put, get-put_self, or_else,
  as_dict, set_last, read_dict, write, HasUniqueKeys, AllUnique, UniqueKeys,
}
use dlp_server.Adapters.Unique.{get-HasUniqueKeys, put-UniqueKeys, as_dict-UniqueKeys}
use dlp_server.Adapters.Written.{read_dict-UniqueKeys, read_dict-write}
use dlp_server.Adapters.Gateway.{
  content, with_content, last_message, first_choice, message, response_text, parse_response,
  respond, rebuild_response,
}
use dlp_server.Adapters.Places.{
  last?-set_last, last?-HasUniqueKeys, set_last-AllUnique, last_message-inv, last_message-arr,
  last_message-put, first_choice-inv, first_choice-arr, first_choice-put, message-inv,
}

abbrev pub is_some : Option Fields → Bool
is_some none = false
is_some (some d) = true

-- there is a place for the text of an answer
abbrev pub has_place : Fields → Bool
has_place data_ =
    is_some (last_message data_) || (is_some (first_choice data_) || is_some (message data_))

module _ (c : Codec) where
  content-put : (s : Str) (d : Fields) → content c (put (str "content") (text s) d) ≡ s
  content-put s d = rw (get-put_self (str "content") (text s) d) refl

  -- the text that is read in the place where it was put
  response_text-last :
      (data_ last : Fields) (s : Str)
      → last_message data_ ≡ some last
      → (data' : Fields) × (respond data_ s ≡ ok data')
        × (response_text c data' ≡ ok s)
        × (UniqueKeys data_ → UniqueKeys data')
  unfolding respond response_text HasUniqueKeys
  response_text-last data_ last s h =
      let (xs, e, q) = last_message-inv data_ last h in
      let w : Items = set_last (with_content s last) xs in
      (
        put (str "messages") (arr w) data_,
        rw h (rw e refl),
        rw
            (last_message-arr (put (str "messages") (arr w) data_) w
              (put (str "content") (text s) last) (get-put_self (str "messages") (arr w) data_)
              (last?-set_last (with_content s last) (obj last) xs q))
            (ap (λ (t : Str). ok t) (content-put s last)),
        λ u.
            let us : AllUnique xs = get-HasUniqueKeys (str "messages") data_ (arr xs) u e in
            put-UniqueKeys (str "messages") (arr w) data_
              (set_last-AllUnique (with_content s last) xs
                (put-UniqueKeys (str "content") (text s) last tt
                  (last?-HasUniqueKeys (obj last) xs us q))
                us)
              u,
      )

  response_text-choice :
      (data_ choice m : Fields) (s : Str)
      → last_message data_ ≡ none
      → first_choice data_ ≡ some choice
      → as_dict (or_else (obj stop) (get (str "message") choice)) ≡ ok m
      → (data' : Fields) × (respond data_ s ≡ ok data')
        × (response_text c data' ≡ ok s)
        × (UniqueKeys data_ → UniqueKeys data')
  unfolding respond response_text HasUniqueKeys eq
  response_text-choice data_ choice m s n h o =
      let (xs, e) = first_choice-inv data_ choice h in
      let d : Fields = put (str "message") (with_content s m) choice in
      let w : Items = cons (obj d) xs in
      (
        put (str "choices") (arr w) data_,
        rw n (rw h (rw o (rw e refl))),
        rw
            (
              last_message-put data_ (str "choices") (arr w) refl ∙ n,
              first_choice-arr (put (str "choices") (arr w) data_) xs d
                  (get-put_self (str "choices") (arr w) data_),
            )
            (rw (get-put_self (str "message") (with_content s m) choice)
              (ap (λ (t : Str). ok t) (content-put s m))),
        λ u.
            let us : AllUnique (cons (obj choice) xs) =
              get-HasUniqueKeys (str "choices") data_ (arr (cons (obj choice) xs)) u e in
            put-UniqueKeys (str "choices") (arr w) data_
              (
                put-UniqueKeys (str "message") (with_content s m) choice
                    (put-UniqueKeys (str "content") (text s) m tt
                      (as_dict-UniqueKeys (str "message") choice m us.0 o))
                    us.0,
                us.1,
              )
              u,
      )

  response_text-message :
      (data_ m : Fields) (s : Str)
      → last_message data_ ≡ none
      → first_choice data_ ≡ none
      → message data_ ≡ some m
      → (data' : Fields) × (respond data_ s ≡ ok data')
        × (response_text c data' ≡ ok s)
        × (UniqueKeys data_ → UniqueKeys data')
  unfolding respond response_text HasUniqueKeys eq message
  response_text-message data_ m s n o h = (
    put (str "message") (with_content s m) data_,
    rw n (rw o (rw h refl)),
    rw
        (
          last_message-put data_ (str "message") (with_content s m) refl ∙ n,
          first_choice-put data_ (str "message") (with_content s m) refl ∙ o,
        )
        (rw (get-put_self (str "message") (with_content s m) data_)
          (ap (λ (t : Str). ok t) (content-put s m))),
    λ u.
        put-UniqueKeys (str "message") (with_content s m) data_
          (put-UniqueKeys (str "content") (text s) m tt
            (get-HasUniqueKeys (str "message") data_ (obj m) u (message-inv data_ m h)))
          u,
  )

  -- what is shown of one written dict holds of any
  answered_any :
      (data_ data' d : Fields) (s t : Str)
      → respond data_ s ≡ ok data'
      → respond data_ s ≡ ok d
      → response_text c d ≡ ok t
      → (UniqueKeys data_ → UniqueKeys d)
      → (response_text c data' ≡ ok t) × (UniqueKeys data_ → UniqueKeys data')
  answered_any data_ data' d s t h p q u =
      let e : d ≡ data' = cc in
      subst (λ (x : Fields). (response_text c x ≡ ok t) × (UniqueKeys data_ → UniqueKeys x)) e
        (q, u)

  choice_read :
      (data_ choice data' : Fields) (s : Str)
      → last_message data_ ≡ none
      → first_choice data_ ≡ some choice
      → respond data_ s ≡ ok data'
      → (m : Fields) × (as_dict (or_else (obj stop) (get (str "message") choice)) ≡ ok m)
  unfolding respond
  choice_read data_ choice data' s l f h =
      let (m, o, r) =
        bind-ok (as_dict (or_else (obj stop) (get (str "message") choice))) _
          (rw f at (rw l at h)) in
      (m, o)

  no_place :
      (data_ data' : Fields) (s : Str)
      → last_message data_ ≡ none
      → first_choice data_ ≡ none
      → message data_ ≡ none
      → respond data_ s ≡ ok data'
      → (response_text c data' ≡ ok []) × (UniqueKeys data_ → UniqueKeys data')
  unfolding respond response_text
  no_place data_ data' s l f g h =
      let e : data_ ≡ data' = cc (rw g at (rw f at (rw l at h))) in
      (rw (← e) (rw l (rw f (rw g refl))), λ u. subst UniqueKeys e u)

  -- the written dict, whichever place it has
  response_text-respond :
      (data_ data' : Fields) (s : Str)
      → respond data_ s ≡ ok data'
      → (response_text c data' ≡ ok (if has_place data_ then s else []))
        × (UniqueKeys data_ → UniqueKeys data')
  response_text-respond data_ data' s h = elim (Option-cases (last_message data_)) [
    | inr (last, l) ↦
        let (d, p, q, u) = response_text-last data_ last s l in
        rw l (answered_any data_ data' d s s h p q u)
    | inl l ↦ elim (Option-cases (first_choice data_)) [
      | inr (choice, f) ↦
          let (m, o) = choice_read data_ choice data' s l f h in
          let (d, p, q, u) = response_text-choice data_ choice m s l f o in
          rw l (rw f (answered_any data_ data' d s s h p q u))
      | inl f ↦ elim (Option-cases (message data_)) [
        | inr (m, g) ↦
            let (d, p, q, u) = response_text-message data_ m s l f g in
            rw l (rw f (rw g (answered_any data_ data' d s s h p q u)))
        | inl g ↦ rw l (rw f (rw g (no_place data_ data' s l f g h)))
      ]
    ]
  ]

  -- The answer is put where it is read: with a faithful codec, `parse_response` of the body that
  -- `rebuild_response` gives is the new text where the body has a place for it (a last message, a
  -- first choice or a message), and empty where it has none.
  pub parse_response-rebuild_response :
      (f : IsFaithful c) (data_ : Fields) (s : Str) (body body' : List ℕ)
      → read_dict c body ≡ ok data_
      → rebuild_response c body s ≡ ok body'
      → parse_response c body' ≡ ok (if has_place data_ then s else [])
  unfolding parse_response rebuild_response
  parse_response-rebuild_response f data_ s body body' r h =
      let (data', p, q) = bind-ok (respond data_ s) (λ d. write c d) (rw r at h) in
      let (t, u) = response_text-respond data_ data' s p in
      rw (read_dict-write c f data' body' (u (read_dict-UniqueKeys c f body data_ r)) q) t
