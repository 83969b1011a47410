-- ===== src/Detect/Merge/Bounds.antt =====
-- merge.py: the span that stands for a cluster has the interval of one of its spans, and a
-- predicate on intervals that holds of all of them holds of it.
use dlp_server.Base.{List, [], ◌∷◌, ◌≡◌, refl, inl, inr, All, Bool-cases, length, ltb}
use dlp_server.Base.Str.{Str}
use dlp_server.Base.Float.{Float}
use dlp_server.Models.{Span}
use dlp_server.Detect.Merge.{key_lt, canonical, boosted, resolve_cluster}

-- a predicate that does not read the confidence or the source
pub record Reads {F : Type 0} (P : Span F → Type 0) : Type 0 where
  pub same :
      (s t : Span F)
      → s.type ≡ t.type
      → s.value ≡ t.value
      → s.start ≡ t.start
      → s.end ≡ t.end
      → P s
      → P t

module _ {F : Type 0} ⦃fl : Float F⦄ (P : Span F → Type 0) where
  pub canonical-All : (s : Span F) (rest : List (Span F)) → P s → All P rest → P (canonical s rest)
  unfolding canonical
  canonical-All s [] p h = p
  canonical-All s (t ∷ rest) p h = elim (Bool-cases (key_lt s t)) [
    | inl e ↦ rw e (canonical-All t rest h.0 h.1)
    | inr e ↦ rw e (canonical-All s rest p h.1)
  ]

  boosted-All : Reads P → (b : F) (c : Span F) (sources : List Str) → P c → P (boosted b c sources)
  unfolding boosted
  boosted-All r b c sources p = elim (Bool-cases (ltb 1 (length sources))) [
    | inl e ↦ rw e (r.same c _ refl refl refl refl p)
    | inr e ↦ rw e p
  ]

  pub resolve_cluster-All :
      Reads P
      → (b : F) (s : Span F) (others : List (Span F)) → P s
      → All P others
      → P (resolve_cluster b (s, others))
  unfolding resolve_cluster
  resolve_cluster-All r b s [] p h = p
  resolve_cluster-All r b s (t ∷ rest) p h =
      boosted-All r b (canonical s (t ∷ rest)) _ (canonical-All s (t ∷ rest) p h)
