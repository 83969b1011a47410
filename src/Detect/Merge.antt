-- ===== src/Detect/Merge.antt =====
-- app/detect/merge.py: the spans of the layers are filtered, clustered by overlap, and each
-- cluster is resolved to one span. The proofs are in the modules below.
pub mod Bounds
pub mod Disjoint
pub mod Canonical
mod Tests
use dlp_server.Base.{
  ℕ, suc, ◌+◌, ◌-◌, Bool, true, false, ◌&&◌, ◌||◌, Option, none, some, List, [], ◌∷◌, ◌++◌, map,
  ltb, leb, ◌==◌, if◌then◌else◌, filter, length,
}
use dlp_server.Base.Str.{Str, str, eq, contains, lookup, join}
use dlp_server.Base.Float.{Float, min_of}
use dlp_server.Base.Sort.{sort}
use dlp_server.Models.{Span}

-- SOURCE_PRIORITY
unfoldable pub source_priority : List (Str × ℕ)
source_priority = (str "regex", 3) ∷ (str "dict", 2) ∷ (str "ner", 1) ∷ []

-- SOURCE_PRIORITY.get(source, 0)
unfoldable pub priority : Str → ℕ
priority source = elim (lookup source source_priority) [ none ↦ 0 | some p ↦ p ]

-- A set of sources. Python leaves the order of a set open; the sort that follows fixes it for the
-- three sources that the layers write.
unfoldable pub distinct : List Str → List Str
distinct [] = []
distinct (x ∷ xs) = let rest = distinct xs in if contains xs x then rest else x ∷ rest

-- key=lambda src: -SOURCE_PRIORITY.get(src, 0)
abbrev pub by_priority : Str → Str → Bool
by_priority a b = leb (priority b) (priority a)

-- A cluster is a list that is not empty: its first span and the others.
abbrev pub Cluster : Type 0 → Type 0
Cluster F = Span F × List (Span F)

abbrev pub or_zero {ℓ} : {A : Type ℓ} → A → Option A → A
or_zero z none = z
or_zero z (some a) = a

module _ {F : Type 0} where
  -- key=lambda s: (s.start, s.end)
  abbrev pub by_start_end : Span F → Span F → Bool
  by_start_end a b = ltb a.start b.start || (a.start == b.start && leb a.end b.end)

  -- key=lambda s: s.start
  abbrev pub by_start : Span F → Span F → Bool
  by_start a b = leb a.start b.start

  -- The sweep over the sorted spans, with the cluster that is still open and its largest end.
  unfoldable pub sweep : Cluster F → ℕ → List (Span F) → List (Cluster F)
  sweep (first, others) max_end [] = (first, others) ∷ []
  sweep (first, others) max_end (s ∷ rest) = elim (ltb s.start max_end) [
    | true ↦ sweep (first, others ++ s ∷ []) (if ltb max_end s.end then s.end else max_end) rest
    | false ↦ (first, others) ∷ sweep (s, []) s.end rest
  ]

  unfoldable pub sweep_ordered : List (Span F) → List (Cluster F)
  sweep_ordered [] = []
  sweep_ordered (s ∷ rest) = sweep (s, []) s.end rest

  -- `_cluster_overlapping`
  unfoldable pub cluster_overlapping : List (Span F) → List (Cluster F)
  cluster_overlapping spans = sweep_ordered (sort by_start_end spans)

module _ {F : Type 0} ⦃fl : Float F⦄ where
  -- `_passes_min_confidence`
  unfoldable pub passes_min_confidence : List (Str × F) → Span F → Bool
  passes_min_confidence thresholds span =
      fl.le (or_zero (fl.lit 0 0) (lookup span.source thresholds)) span.confidence

  -- The tuple (priority, confidence, end - start) of `b` is larger than that of `a`.
  unfoldable pub key_lt : Span F → Span F → Bool
  key_lt a b =
      ltb (priority a.source) (priority b.source)
      || (priority a.source == priority b.source
          && (fl.lt a.confidence b.confidence
              || (fl.le a.confidence b.confidence
                  && fl.le b.confidence a.confidence
                  && ltb (a.end + b.start) (b.end + a.start))))

  -- max(cluster, key=…): the first of the largest
  unfoldable pub canonical : Span F → List (Span F) → Span F
  canonical best [] = best
  canonical best (s ∷ rest) = canonical (if key_lt best s then s else best) rest

  -- MAX_CONFIDENCE
  abbrev pub max_confidence : F
  max_confidence = fl.lit 999 3

  -- The sources that agree with the canonical span on the type, best first.
  unfoldable pub agreeing_sources : Span F → List (Span F) → List Str
  agreeing_sources c cluster =
      sort by_priority (distinct (map (λ s. s.source) (filter (λ s. eq s.type c.type) cluster)))

  unfoldable pub boosted : F → Span F → List Str → Span F
  boosted overlap_bonus c sources =
      if ltb 1 (length sources)
      then record c {
        confidence =
            min_of (fl.add c.confidence (fl.mul overlap_bonus (fl.lit (length sources - 1) 0)))
              max_confidence;
        source = join (str "+") sources;
      }
      else c

  -- `_resolve_cluster`
  unfoldable pub resolve_cluster : F → Cluster F → Span F
  resolve_cluster overlap_bonus (s, []) = s
  resolve_cluster overlap_bonus (s, t ∷ rest) =
      let c = canonical s (t ∷ rest) in boosted overlap_bonus c (agreeing_sources c (s ∷ t ∷ rest))

  -- DEFAULT_MIN_CONFIDENCE and OVERLAP_BONUS
  unfoldable pub default_min_confidence : List (Str × F)
  default_min_confidence =
      (str "regex", fl.lit 5 1) ∷ (str "dict", fl.lit 0 0) ∷ (str "ner", fl.lit 55 2) ∷ []

  -- None and the empty dict are both replaced by the default.
  unfoldable pub effective_thresholds : Option (List (Str × F)) → List (Str × F)
  effective_thresholds none = default_min_confidence
  effective_thresholds (some []) = default_min_confidence
  effective_thresholds (some (t ∷ ts)) = t ∷ ts

  unfoldable pub merge_spans : List (Span F) → Option (List (Str × F)) → Option F → List (Span F)
  merge_spans spans min_confidence overlap_bonus =
      let thresholds = effective_thresholds min_confidence in
      let bonus = or_zero (fl.lit 2 2) overlap_bonus in
      let filtered = filter (passes_min_confidence thresholds) spans in
      sort by_start (map (resolve_cluster bonus) (cluster_overlapping filtered))
