-- ===== src/Detect/Merge/Tests.antt =====
-- Runs of merge.py, over the fixed-point floats.
use dlp_server.Base.{ℕ, ◌≡◌, refl, ◌≤◌, none, List, [], ◌∷◌, arith}
use dlp_server.Base.Str.{str, eq, contains, lookup, join}
use dlp_server.Base.Float.{fixed}
use dlp_server.Base.Sort
use dlp_server.Base.Sort.{IsSorted}
use dlp_server.Models.{Span}
use dlp_server.Detect.Merge.{
  source_priority, priority, distinct, by_start, sweep, sweep_ordered, cluster_overlapping,
  passes_min_confidence, key_lt, canonical, agreeing_sources, boosted, resolve_cluster,
  default_min_confidence, effective_thresholds, merge_spans,
}
use dlp_server.Detect.Merge.Disjoint.{Separated, merge_spans-Separated}
use dlp_server.Detect.Merge.Canonical.{merge_spans_chain}

abbrev rrn : Span ℕ
rrn = record {
  type = str "RRN";
  value = str "900101-1234568";
  start = 5;
  end = 19;
  confidence = 970000;
  source = str "regex";
}

abbrev name : Span ℕ
name = record {
  type = str "RRN";
  value = str "0101-1234568";
  start = 7;
  end = 21;
  confidence = 600000;
  source = str "ner";
}

abbrev address : Span ℕ
address = record {
  type = str "ADDRESS";
  value = str "x";
  start = 20;
  end = 30;
  confidence = 700000;
  source = str "ner";
}

merge_agreement :
    merge_spans (name ∷ rrn ∷ []) none none
    ≡ record rrn { confidence = 990000; source = str "regex+ner" } ∷ []
unfolding merge_spans effective_thresholds default_min_confidence passes_min_confidence lookup eq
    cluster_overlapping Sort.sort Sort.insert sweep_ordered sweep resolve_cluster canonical key_lt
    priority source_priority agreeing_sources distinct contains boosted join
merge_agreement = refl

abbrev found : List (Span ℕ)
found = address ∷ name ∷ rrn ∷ []

merge_spans-Separated_example :
    Separated (merge_spans found none none) × IsSorted by_start (merge_spans found none none)
merge_spans-Separated_example = merge_spans-Separated found none none (omega arith)

merge_spans_chain_example :
    (r : Span ℕ) × (merge_spans (rrn ∷ name ∷ address ∷ []) none none ≡ r ∷ [])
    × (r.start ≡ 5)
    × (r.end ≤ 20)
unfolding effective_thresholds default_min_confidence passes_min_confidence lookup eq priority
    source_priority
merge_spans_chain_example =
    merge_spans_chain rrn name address
      (record { sorted = omega arith; joined = omega arith; apart = omega arith }) none none refl
      (omega arith) (omega arith)
