-- ===== src/Adapters/Places.antt =====
-- app/adapters/gateway.py: the places of an answer in a body.
use dlp_server.Base.{◌≡◌, refl, subst, ◌∙◌, ap, false, Option, none, some}
use dlp_server.Base.Str.{Str, str, eq}
use dlp_server.Adapters.Json.{
  Json, null, boolean, number, text, arr, obj, Items, nil, cons, Fields, get, put, get-put_other,
  dict?, list?, and_then, and_then-some, first?, last?, set_last, HasUniqueKeys, AllUnique,
}
use dlp_server.Adapters.Written.{dict?-obj}
use dlp_server.Adapters.Gateway.{last_message, first_choice, message}

-- A list is where `list?` finds one.
list?-arr : (o : Option Json) (xs : Items) → list? o ≡ some xs → o ≡ some (arr xs)
list?-arr (some (arr ys)) xs h = cc
list?-arr none xs h = cc
list?-arr (some null) xs h = cc
list?-arr (some (boolean b)) xs h = cc
list?-arr (some (number n)) xs h = cc
list?-arr (some (text s)) xs h = cc
list?-arr (some (obj d)) xs h = cc

pub last?-set_last : (w v : Json) (xs : Items) → last? xs ≡ some v → last? (set_last w xs) ≡ some w
unfolding last? set_last
last?-set_last w v nil h = cc
last?-set_last w v (cons x nil) h = refl
last?-set_last w v (cons x (cons y nil)) h = refl
last?-set_last w v (cons x (cons y (cons z zs))) h = last?-set_last w v (cons y (cons z zs)) h

pub last?-HasUniqueKeys :
    (v : Json) (xs : Items) → AllUnique xs → last? xs ≡ some v → HasUniqueKeys v
unfolding last? HasUniqueKeys
last?-HasUniqueKeys v nil u h = cc
last?-HasUniqueKeys v (cons x nil) u h = subst HasUniqueKeys (cc) u.0
last?-HasUniqueKeys v (cons x (cons y ys)) u h = last?-HasUniqueKeys v (cons y ys) u.1 h

pub set_last-AllUnique :
    (w : Json) (xs : Items) → HasUniqueKeys w → AllUnique xs → AllUnique (set_last w xs)
unfolding set_last HasUniqueKeys
set_last-AllUnique w nil u us = us
set_last-AllUnique w (cons x nil) u us = (u, tt)
set_last-AllUnique w (cons x (cons y ys)) u us = (us.0, set_last-AllUnique w (cons y ys) u us.1)

pub first?-cons : (v : Json) (xs : Items) → first? xs ≡ some v → (vs : Items) × (xs ≡ cons v vs)
first?-cons v nil h = cc
first?-cons v (cons w vs) h = (vs, cc)

-- the dict that `last_message` finds, with the list that it ends
module _ (data_ : Fields) where
  pub last_message-inv :
      (last : Fields)
      → last_message data_ ≡ some last
      → (xs : Items) × (get (str "messages") data_ ≡ some (arr xs)) × (last? xs ≡ some (obj last))
  unfolding last_message
  last_message-inv last h =
      let (v, e, q) =
        and_then-some (and_then (list? (get (str "messages") data_)) last?) (λ v. dict? v) h in
      let (xs, l, p) = and_then-some (list? (get (str "messages") data_)) last? e in
      (xs, list?-arr _ xs l, p ∙ ap (λ (j : Json). some j) (dict?-obj v last q))

  pub last_message-arr :
      (xs : Items) (d : Fields)
      → get (str "messages") data_ ≡ some (arr xs)
      → last? xs ≡ some (obj d)
      → last_message data_ ≡ some d
  unfolding last_message
  last_message-arr xs d e q = rw e (rw q refl)

  pub last_message-put :
      (k : Str) (v : Json)
      → eq k (str "messages") ≡ false
      → last_message (put k v data_) ≡ last_message data_
  unfolding last_message
  last_message-put k v e = rw (get-put_other k (str "messages") v data_ e) refl

  pub first_choice-inv :
      (choice : Fields)
      → first_choice data_ ≡ some choice
      → (xs : Items) × (get (str "choices") data_ ≡ some (arr (cons (obj choice) xs)))
  unfolding first_choice
  first_choice-inv choice h =
      let (v, e, q) =
        and_then-some (and_then (list? (get (str "choices") data_)) (λ xs. first? xs))
          (λ v. dict? v) h in
      let (xs, l, p) = and_then-some (list? (get (str "choices") data_)) (λ xs. first? xs) e in
      let (vs, c) = first?-cons v xs p in
      (
        vs,
        list?-arr _ xs l
            ∙ ap (λ (ys : Items). some (arr ys)) c
            ∙ ap (λ (j : Json). some (arr (cons j vs))) (dict?-obj v choice q),
      )

  pub first_choice-arr :
      (xs : Items) (d : Fields)
      → get (str "choices") data_ ≡ some (arr (cons (obj d) xs))
      → first_choice data_ ≡ some d
  unfolding first_choice
  first_choice-arr xs d e = rw e refl

  pub first_choice-put :
      (k : Str) (v : Json)
      → eq k (str "choices") ≡ false
      → first_choice (put k v data_) ≡ first_choice data_
  unfolding first_choice
  first_choice-put k v e = rw (get-put_other k (str "choices") v data_ e) refl

  pub message-inv : (m : Fields) → message data_ ≡ some m → get (str "message") data_ ≡ some (obj m)
  unfolding message
  message-inv m h =
      let (v, e, q) = and_then-some (get (str "message") data_) (λ v. dict? v) h in
      e ∙ ap (λ (j : Json). some j) (dict?-obj v m q)
