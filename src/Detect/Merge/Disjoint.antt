-- ===== src/Detect/Merge/Disjoint.antt =====
-- merge.py: the merged spans stand in order and do not overlap.
use dlp_server.Base.{
  ℕ, ◌≤◌, true, false, Option, List, [], ◌∷◌, ◌++◌, ◌≡◌, inl, inr, arith, map, ltb, if◌then◌else◌,
  All, All-append, All-filter, All-map, filter, Bool-cases,
}
use dlp_server.Base.Str.{Str}
use dlp_server.Base.Float.{Float}
use dlp_server.Base.Sort.{sort, IsSorted, All-sort, sort-IsSorted, sort_sorted}
use dlp_server.Models.{Span}
use dlp_server.Detect.Merge.{
  Cluster, by_start, by_start_end, sweep, sweep_ordered, cluster_overlapping, resolve_cluster,
  merge_spans, effective_thresholds, passes_min_confidence, or_zero,
}
use dlp_server.Detect.Merge.Bounds.{Reads, resolve_cluster-All}

-- each span ends before the later ones begin
abbrev pub Separated : {F : Type 0} → List (Span F) → Type 0
Separated [] = Unit
Separated (s ∷ rest) = All (λ t. s.end ≤ t.start) rest × Separated rest

-- the interval of the span is not reversed
abbrev pub IsForward : {F : Type 0} → Span F → Type 0
IsForward s = s.start ≤ s.end

-- the interval lies in a range
abbrev Inside : {F : Type 0} → ℕ → ℕ → Span F → Type 0
Inside lo hi s = (lo ≤ s.start) × (s.start ≤ s.end) × (s.end ≤ hi)

module _ {F : Type 0} where
  Inside-Reads : (lo hi : ℕ) → Reads {F = F} (Inside lo hi)
  Inside-Reads lo hi = record { same = λ s t p q r u h. omega arith }

  by_start_end→le : (s t : Span F) → by_start_end s t ≡ true → s.start ≤ t.start
  by_start_end→le s t h = ground arith

  by_start_end_total : (s t : Span F) → by_start_end s t ≡ false → by_start_end t s ≡ true
  by_start_end_total s t h = ground arith

  by_start_end_trans :
      (s t u : Span F) → by_start_end s t ≡ true → by_start_end t u ≡ true → by_start_end s u ≡ true
  by_start_end_trans s t u h k = ground arith

  Inside-widen :
      (lo hi hi' : ℕ) (xs : List (Span F))
      → hi ≤ hi'
      → All (Inside lo hi) xs
      → All (Inside lo hi') xs
  Inside-widen lo hi hi' xs e = All-map (λ s (h : Inside lo hi s). omega arith) xs

  all_from :
      (lo lo' : ℕ) (xs : List (Span F))
      → lo ≤ lo'
      → All (λ t. lo' ≤ t.start) xs
      → All (λ t. lo ≤ t.start) xs
  all_from lo lo' xs e = All-map (λ s (h : lo' ≤ s.start). omega arith) xs

  start_le : (s t : Span F) → IsForward s → s.end ≤ t.start → by_start s t ≡ true
  start_le s t f k = ground arith

  -- A separated list of forward spans is sorted.
  Separated-IsSorted : (xs : List (Span F)) → All IsForward xs → Separated xs → IsSorted by_start xs
  Separated-IsSorted [] f h = tt
  Separated-IsSorted (x ∷ xs) f h = (
    All-map (λ t (k : x.end ≤ t.start). start_le x t f.0 k) xs h.0,
    Separated-IsSorted xs f.1 h.1,
  )

  sweep_join :
      (c : Cluster F) (hi : ℕ) (t : Span F) (rest : List (Span F))
      → ltb t.start hi ≡ true
      → sweep c hi (t ∷ rest) ≡ sweep (c.0, c.1 ++ t ∷ []) (if ltb hi t.end then t.end else hi) rest
  unfolding sweep
  sweep_join (s, others) hi t rest e = ground arith

  sweep_cut :
      (c : Cluster F) (hi : ℕ) (t : Span F) (rest : List (Span F))
      → ltb t.start hi ≡ false
      → sweep c hi (t ∷ rest) ≡ c ∷ sweep (t, []) t.end rest
  unfolding sweep
  sweep_cut (s, others) hi t rest e = ground arith

  -- what is known of the spans that a sweep from `lo` on leaves
  abbrev Good : ℕ → List (Span F) → Type 0
  Good lo xs = Separated xs × All IsForward xs × All (λ t. lo ≤ t.start) xs

  Good-cons :
      (lo hi : ℕ) (s t : Span F) (xs : List (Span F))
      → Inside lo hi s
      → lo ≤ t.start
      → hi ≤ t.start
      → Good t.start xs
      → Good lo (s ∷ xs)
  Good-cons lo hi s t xs h l k g = (
    (all_from s.end t.start xs (omega arith) g.2, g.0),
    (h.1, g.1),
    (h.0, all_from lo t.start xs l g.2),
  )

  Inside-append :
      (lo hi hi' : ℕ) (t : Span F) (xs : List (Span F))
      → hi ≤ hi'
      → All (Inside lo hi) xs
      → Inside lo hi' t
      → All (Inside lo hi') (xs ++ t ∷ [])
  Inside-append lo hi hi' t xs e h k =
      All-append (Inside lo hi') xs (t ∷ []) (Inside-widen lo hi hi' xs e h) (k, tt)

module _ {F : Type 0} (r : Cluster F → Span F)
    (keeps : (lo hi : ℕ) (s : Span F) (others : List (Span F))
      → Inside lo hi s
      → All (Inside lo hi) others
      → Inside lo hi (r (s, others))) where
  sweep-Good :
      (lo hi : ℕ) (s : Span F) (others rest : List (Span F))
      → Inside lo hi s
      → All (Inside lo hi) others
      → IsSorted by_start_end rest
      → All IsForward rest
      → All (λ t. lo ≤ t.start) rest
      → Good lo (map r (sweep (s, others) hi rest))
  unfolding sweep
  sweep-Good lo hi s others [] p q o f b =
      let h = keeps lo hi s others p q in ((tt, tt), (h.1, tt), (h.0, tt))
  sweep-Good lo hi s others (t ∷ rest) p q o f b = elim (Bool-cases (ltb t.start hi)) [
    | inl e ↦
        let hi' = if ltb hi t.end then t.end else hi in
        let wide : hi ≤ hi' = ground arith in
        let fits : Inside lo hi' t = (b.0, f.0, ground arith) in
        rw (sweep_join (s, others) hi t rest e) (
          sweep-Good lo hi' s (others ++ t ∷ []) rest (p.0, p.1, ground arith)
            (Inside-append lo hi hi' t others wide q fits) o.1 f.1 b.1)
    | inr e ↦ rw (sweep_cut (s, others) hi t rest e) (
        Good-cons lo hi (r (s, others)) t (map r (sweep (t, []) t.end rest))
          (keeps lo hi s others p q) b.0 (ground arith)
          (sweep-Good t.start t.end t [] rest (omega arith) tt o.1 f.1
            (All-map (λ u (h : by_start_end t u ≡ true). by_start_end→le t u h) rest o.0)))
  ]

  sweep_ordered-Good :
      (xs : List (Span F))
      → IsSorted by_start_end xs
      → All IsForward xs
      → Good 0 (map r (sweep_ordered xs))
  unfolding sweep_ordered
  sweep_ordered-Good [] o f = (tt, tt, tt)
  sweep_ordered-Good (s ∷ rest) o f = sweep-Good 0 s.end s [] rest (omega arith) tt o.1 f.1 (
      All-map (λ u (h : s.start ≤ u.start). omega arith) rest
        (All-map (λ u (h : by_start_end s u ≡ true). by_start_end→le s u h) rest o.0))

  clusters-Good : (xs : List (Span F)) → All IsForward xs → Good 0 (map r (cluster_overlapping xs))
  unfolding cluster_overlapping
  clusters-Good xs f =
      sweep_ordered-Good (sort by_start_end xs)
        (sort-IsSorted by_start_end by_start_end_total by_start_end_trans xs)
        (All-sort by_start_end IsForward xs f)

module _ {F : Type 0} ⦃fl : Float F⦄ where
  -- What `merge_spans` returns is in order, and each span ends before the next begins, whatever
  -- the layers found, the thresholds and the bonus, if no interval of theirs is reversed.
  pub merge_spans-Separated :
      (spans : List (Span F)) (thresholds : Option (List (Str × F))) (bonus : Option F)
      → All IsForward spans
      → Separated (merge_spans spans thresholds bonus)
        × IsSorted by_start (merge_spans spans thresholds bonus)
  unfolding merge_spans
  merge_spans-Separated spans thresholds bonus f =
      let limits = effective_thresholds thresholds in
      let b : F = or_zero (fl.lit 2 2) bonus in
      let kept = filter (passes_min_confidence limits) spans in
      let good =
        clusters-Good (resolve_cluster b)
          (λ lo hi. resolve_cluster-All (Inside lo hi) (Inside-Reads lo hi) b) kept
          (All-filter IsForward (passes_min_confidence limits) spans f) in
      let merged = map (resolve_cluster b) (cluster_overlapping kept) in
      let o = Separated-IsSorted merged good.1 good.0 in
      rw (sort_sorted by_start merged o) (good.0, o)
