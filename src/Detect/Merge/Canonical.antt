-- ===== src/Detect/Merge/Canonical.antt =====
-- merge.py: which span of a cluster stands for it, and what a cluster loses.
use native.Mathlib.Nat.{le_trans}
use dlp_server.Base.{
  ◌≤◌, ◌<◌, true, false, Option, List, [], ◌∷◌, ◌≡◌, refl, inl, inr, arith, ap, sym, ◌∙◌, All,
  filter, Bool-cases,
}
use dlp_server.Base.Str.{Str}
use dlp_server.Base.Float.{Float}
use dlp_server.Base.Sort
use dlp_server.Base.Sort.{sort}
use dlp_server.Models.{Span}
use dlp_server.Detect.Merge.{
  sweep, sweep_ordered, cluster_overlapping, priority, key_lt, canonical, boosted, agreeing_sources,
  resolve_cluster, merge_spans, passes_min_confidence, effective_thresholds, or_zero,
}

module _ {F : Type 0} ⦃fl : Float F⦄ where
  key_lt→le : (a b : Span F) → key_lt a b ≡ true → priority a.source ≤ priority b.source
  unfolding key_lt
  key_lt→le a b h = ground arith

  not_key_lt→le : (a b : Span F) → key_lt a b ≡ false → priority b.source ≤ priority a.source
  unfolding key_lt
  not_key_lt→le a b h = ground arith

  canonical_taken :
      (s t : Span F) (rest : List (Span F))
      → key_lt s t ≡ true
      → canonical s (t ∷ rest) ≡ canonical t rest
  unfolding canonical
  canonical_taken s t rest e = rw e

  canonical_kept :
      (s t : Span F) (rest : List (Span F))
      → key_lt s t ≡ false
      → canonical s (t ∷ rest) ≡ canonical s rest
  unfolding canonical
  canonical_kept s t rest e = rw e

  canonical_above :
      (s : Span F) (rest : List (Span F)) (c : Span F)
      → canonical s rest ≡ c
      → All (λ t. priority t.source ≤ priority c.source) (s ∷ rest)
  canonical_above s [] c h = (unfold canonical in ground (arith, h), tt)
  canonical_above s (t ∷ rest) c h = elim (Bool-cases (key_lt s t)) [
    | inl e ↦
        let up = canonical_above t rest c (sym (canonical_taken s t rest e) ∙ h) in
        (le_trans (key_lt→le s t e) up.0, up)
    | inr e ↦
        let up = canonical_above s rest c (sym (canonical_kept s t rest e) ∙ h) in
        (up.0, (le_trans (not_key_lt→le s t e) up.0, up.1))
  ]

  boosted_same :
      (b : F) (c : Span F) (sources : List Str)
      → ((boosted b c sources).type ≡ c.type)
        × ((boosted b c sources).value ≡ c.value)
        × ((boosted b c sources).start ≡ c.start)
        × ((boosted b c sources).end ≡ c.end)
  unfolding boosted
  boosted_same b c sources = ground arith

  -- The span that stands for a cluster of two or more has the type, the value and the interval
  -- of its canonical span, whose source has the highest priority in the cluster.
  resolve_cluster_best :
      (bonus : F) (s t : Span F) (rest : List (Span F))
      → let c = canonical s (t ∷ rest) in
        let r = resolve_cluster bonus (s, t ∷ rest) in
        (r.type ≡ c.type)
        × (r.value ≡ c.value)
        × (r.start ≡ c.start)
        × (r.end ≡ c.end)
        × All (λ u. priority u.source ≤ priority c.source) (s ∷ t ∷ rest)
  unfolding resolve_cluster
  resolve_cluster_best bonus s t rest =
      let c = canonical s (t ∷ rest) in
      let h = boosted_same bonus c _ in (h.0, h.1, h.2, h.3, canonical_above s (t ∷ rest) c refl)

-- a chain: `b` overlaps `a` and `c`, and `c` begins behind the end of `a`
pub record IsChain {F : Type 0} (a b c : Span F) : Type 0 where
  pub sorted : (a.start < b.start) × (b.start < c.start)
  pub joined : (b.start < a.end) × (c.start < b.end)
  pub apart : a.end ≤ c.start

module _ {F : Type 0} ⦃fl : Float F⦄ (a b c : Span F) (chain : IsChain a b c) where
  chain_clusters : cluster_overlapping (a ∷ b ∷ c ∷ []) ≡ (a, b ∷ c ∷ []) ∷ []
  unfolding cluster_overlapping sort Sort.insert sweep_ordered sweep
  chain_clusters = ground arith

  chain_canonical :
      priority b.source < priority a.source
      → priority c.source < priority a.source
      → canonical a (b ∷ c ∷ []) ≡ a
  unfolding canonical key_lt
  chain_canonical p q = ground arith

  -- A span at the end of a chain of overlaps is dropped with its cluster, though no span of the
  -- result overlaps it: where `b` overlaps `a` and `c`, these two do not overlap, the source of
  -- `a` has a strictly higher priority than those of `b` and `c`, and all three pass the thresholds,
  -- the result is one span, and it ends before `c` begins.
  pub merge_spans_chain :
      (thresholds : Option (List (Str × F))) (bonus : Option F)
      → filter (passes_min_confidence (effective_thresholds thresholds)) (a ∷ b ∷ c ∷ [])
        ≡ a ∷ b ∷ c ∷ []
      → priority b.source < priority a.source
      → priority c.source < priority a.source
      → (r : Span F) × (merge_spans (a ∷ b ∷ c ∷ []) thresholds bonus ≡ r ∷ [])
        × (r.start ≡ a.start)
        × (r.end ≤ c.start)
  unfolding merge_spans resolve_cluster sort Sort.insert
  merge_spans_chain thresholds bonus pass p q =
      let d = canonical a (b ∷ c ∷ []) in
      let r = boosted (or_zero (fl.lit 2 2) bonus) d (agreeing_sources d (a ∷ b ∷ c ∷ [])) in
      let same =
        boosted_same (or_zero (fl.lit 2 2) bonus) d (agreeing_sources d (a ∷ b ∷ c ∷ [])) in
      let e = chain_canonical p q in
      (
        r,
        rw (pass, chain_clusters),
        same.2 ∙ ap (λ s. s.start) e,
        omega (arith, same.3, ap (λ (s : Span F). s.end) e, chain.apart),
      )
