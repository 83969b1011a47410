-- ===== src/Transform/Weave.antt =====
-- apply.py: replacing the spans from the right gives the text in which each span, where it stood
-- in the original, is its new value, and all else is as it was.
use mathlib.Core.List.{append_assoc}
use dlp_server.Base.{
  ℕ, zero, suc, ◌≤◌, ◌<◌, ◌≡◌, refl, sym, ◌∙◌, ap, true, false, List, [], ◌∷◌, ◌++◌, length, take,
  drop, All, All-map, arith, ◌⊎◌,
}
use dlp_server.Base.Str.{Str}
use dlp_server.Base.Sort.{sort, IsSorted, sort-IsSorted, All-sort}
use dlp_server.Base.Sort
use dlp_server.Transform.Splice.{Replacement, from_right, splice, splice_all, replace_spans}

module _ {ℓ} {A : Type ℓ} where
  take-append_le : (n : ℕ) (xs ys : List A) → n ≤ length xs → take n (xs ++ ys) ≡ take n xs
  take-append_le zero xs ys h = refl
  take-append_le (suc n) [] ys h = absurd (omega arith)
  take-append_le (suc n) (x ∷ xs) ys h = ap (λ t. x ∷ t) (take-append_le n xs ys (omega arith))

  drop-append_le : (n : ℕ) (xs ys : List A) → n ≤ length xs → drop n (xs ++ ys) ≡ drop n xs ++ ys
  drop-append_le zero xs ys h = refl
  drop-append_le (suc n) [] ys h = absurd (omega arith)
  drop-append_le (suc n) (x ∷ xs) ys h = drop-append_le n xs ys (omega arith)

  length-take_le : (n : ℕ) (xs : List A) → n ≤ length xs → length (take n xs) ≡ n
  length-take_le zero xs h = refl
  length-take_le (suc n) [] h = absurd (omega arith)
  length-take_le (suc n) (x ∷ xs) h = ap suc (length-take_le n xs (omega arith))

  length-append_left : (xs ys : List A) → length xs ≤ length (xs ++ ys)
  length-append_left [] ys = omega arith
  length-append_left (x ∷ xs) ys = omega (arith, length-append_left xs ys)

-- the replacements from the right: each ends where or before the one on its right begins
abbrev pub IsApart : List Replacement → Type 0
IsApart [] = Unit
IsApart (r ∷ rest) = (r.start ≤ r.end) × All (λ q. q.end ≤ r.start) rest × IsApart rest

-- The text in which the pieces between the replacements are those of the original.
pub woven : Str → List Replacement → Str
woven text [] = text
woven text (r ∷ rest) = woven (take r.start text) rest ++ (r.new_value ++ drop r.end text)

abbrev Fits : ℕ → List Replacement → Type 0
Fits n = All (λ q. q.end ≤ n)

Fits-le : (m n : ℕ) (rs : List Replacement) → m ≤ n → Fits m rs → Fits n rs
Fits-le m n rs h = All-map (λ q (k : q.end ≤ m). omega arith) rs

splice-append :
    (p t : Str) (r : Replacement)
    → r.start ≤ r.end
    → r.end ≤ length p
    → splice (p ++ t) r ≡ splice p r ++ t
unfolding splice
splice-append p t r o h =
    rw (take-append_le r.start p t (omega arith), drop-append_le r.end p t h)
      (sym (
        append_assoc (take r.start p) (r.new_value ++ drop r.end p) t
        ∙ ap (λ z. take r.start p ++ z) (append_assoc r.new_value (drop r.end p) t)))

length-splice : (p : Str) (r : Replacement) → r.start ≤ length p → r.start ≤ length (splice p r)
unfolding splice
length-splice p r h = omega (
  arith,
  length-take_le r.start p h,
  length-append_left (take r.start p) (r.new_value ++ drop r.end p),
)

splice_all-append :
    (p t : Str) (rs : List Replacement)
    → IsApart rs
    → Fits (length p) rs
    → splice_all (p ++ t) rs ≡ splice_all p rs ++ t
unfolding splice_all
splice_all-append p t [] a f = refl
splice_all-append p t (r ∷ rest) a f = rw (splice-append p t r a.0 f.0) (
    splice_all-append (splice p r) t rest a.2
      (Fits-le r.start (length (splice p r)) rest (length-splice p r (omega arith)) a.1))

-- Applied in order, separated replacements give the woven text.
pub splice_all-eq-woven :
    (text : Str) (rs : List Replacement)
    → IsApart rs
    → Fits (length text) rs
    → splice_all text rs ≡ woven text rs
unfolding splice_all woven splice
splice_all-eq-woven text [] a f = refl
splice_all-eq-woven text (r ∷ rest) a f =
    let left = take r.start text in
    let fits : Fits (length left) rest =
      Fits-le r.start (length left) rest (omega (arith, length-take_le r.start text (omega arith)))
        a.1 in
    splice_all-append left (r.new_value ++ drop r.end text) rest a.2 fits
    ∙ ap (λ z. z ++ (r.new_value ++ drop r.end text)) (splice_all-eq-woven left rest a.2 fits)

-- one of the two ends where or before the other begins
abbrev pub IsDisjoint : Replacement → Replacement → Type 0
IsDisjoint a b = (a.end ≤ b.start) ⊎ (b.end ≤ a.start)

-- not empty, and inside a text of that length
abbrev pub IsInside : ℕ → Replacement → Type 0
IsInside n r = (r.start < r.end) × (r.end ≤ n)

from_right_total : (a b : Replacement) → from_right a b ≡ false → from_right b a ≡ true
from_right_total a b h = ground arith

from_right_trans :
    (a b c : Replacement) → from_right a b ≡ true → from_right b c ≡ true → from_right a c ≡ true
from_right_trans a b c h k = ground arith

before_of_disjoint :
    (r q : Replacement)
    → r.start < r.end
    → q.start < q.end
    → from_right r q ≡ true
    → IsDisjoint r q
    → q.end ≤ r.start
before_of_disjoint r q h k o d = ground arith

all_before :
    (r : Replacement) (n : ℕ) (rs : List Replacement)
    → r.start < r.end
    → All (IsInside n) rs
    → All (λ q. from_right r q ≡ true) rs
    → All (IsDisjoint r) rs
    → All (λ q. q.end ≤ r.start) rs
all_before r n [] h i o d = tt
all_before r n (q ∷ rs) h i o d =
    (before_of_disjoint r q h i.0.0 o.0 d.0, all_before r n rs h i.1 o.1 d.1)

sorted-IsApart :
    (n : ℕ) (rs : List Replacement)
    → All (IsInside n) rs
    → IsSorted from_right rs
    → Sort.AllPairs IsDisjoint rs
    → IsApart rs
sorted-IsApart n [] i o d = tt
sorted-IsApart n (r ∷ rs) i o d =
    (omega arith, all_before r n rs i.0.0 i.1 o.0 d.0, sorted-IsApart n rs i.1 o.1 d.1)

-- Whatever the order in which they are listed, replacements of spans that are not empty, lie in
-- the text and do not overlap give the text woven from the pieces of the original between the
-- spans and the new values, each where its span stood.
pub replace_spans-eq-woven :
    (text : Str) (rs : List Replacement)
    → All (IsInside (length text)) rs
    → Sort.AllPairs IsDisjoint rs
    → replace_spans text rs ≡ woven text (sort from_right rs)
unfolding replace_spans
replace_spans-eq-woven text rs i d =
    let i' = All-sort from_right (IsInside (length text)) rs i in
    splice_all-eq-woven text (sort from_right rs)
      (sorted-IsApart (length text) (sort from_right rs) i'
        (sort-IsSorted from_right from_right_total from_right_trans rs)
        (Sort.AllPairs-sort from_right IsDisjoint (λ a b h. ground arith) rs d))
      (All-map (λ q (h : IsInside (length text) q). h.1) (sort from_right rs) i')
