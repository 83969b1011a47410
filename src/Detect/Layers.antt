-- ===== src/Detect/Layers.antt =====
-- app/detect/__init__.py: the layers that are on, run one after the other, and their merge. The
-- table of the layers is an argument, as in the source; a layer that raises is left out. Loading
-- the configuration may raise.
use dlp_server.Base.{
  not, Option, none, some, List, [], ◌∷◌, ◌++◌, map, Result, ok, raised, rescue, filter, get_last?,
  if◌then◌else◌, ◌==◌, ℕ,
}
use dlp_server.Base.Str.{Str, str, contains, truthy}
use dlp_server.Base.Float.{Float}
use dlp_server.Base.Unicode.{Unicode, strip}
use dlp_server.Models.{Span, Context}
use dlp_server.Detect.Merge.{merge_spans}

-- the fields of DetectConfig that the module reads
pub record DetectConfig (F : Type 0) : Type 0 where
  pub enabled_layers : Str
  pub regex_min_confidence : F
  pub dict_min_confidence : F
  pub ner_threshold : F
  pub merge_overlap_bonus : F

-- _LAYER_FUNCS
abbrev pub Layers : Type 0 → Type 0
Layers F = List (Str × (Str → Result (List (Span F))))

abbrev pub add_char : ℕ → List Str → List Str
add_char c [] = (c ∷ []) ∷ []
add_char c (piece ∷ rest) = (c ∷ piece) ∷ rest

-- s.split(",")
unfoldable pub split_commas : Str → List Str
split_commas [] = [] ∷ []
split_commas (c ∷ s) =
    let pieces = split_commas s in if c == b',' then [] ∷ pieces else add_char c pieces

module _ ⦃u : Unicode⦄ where
  -- {n.strip() for n in raw.split(",") if n.strip()}
  unfoldable pub layer_names : Str → List Str
  layer_names raw = filter truthy (map strip (split_commas raw))

module _ {F : Type 0} where
  -- config.detect.enabled_layers, "" if the load raises
  unfoldable pub enabled : Result (DetectConfig F) → Str
  enabled (ok d) = d.enabled_layers
  enabled raised = []

  -- the loop over the layers
  unfoldable pub run_layers : Layers F → Str → List (Span F)
  run_layers [] text = []
  run_layers ((name, layer) ∷ rest) text = rescue (layer text) [] ++ run_layers rest text

  -- `_merge_kwargs`, as the two arguments of `merge_spans`
  unfoldable pub merge_kwargs : Result (DetectConfig F) → Option (List (Str × F)) × Option F
  merge_kwargs (ok d) = (
    some (
        (str "regex", d.regex_min_confidence)
        ∷ (str "dict", d.dict_min_confidence)
        ∷ (str "ner", d.ner_threshold)
        ∷ []),
    some d.merge_overlap_bonus,
  )
  merge_kwargs raised = (none, none)

module _ {F : Type 0} ⦃u : Unicode⦄ where
  -- `_active_layers`
  unfoldable pub active_layers : Result (DetectConfig F) → Layers F → Layers F
  active_layers load layers =
      let raw = enabled load in
      if not (truthy raw) then layers else filter (λ p. contains (layer_names raw) p.0) layers

module _ {F : Type 0} ⦃fl : Float F⦄ ⦃u : Unicode⦄ where
  unfoldable pub detect : Result (DetectConfig F) → Layers F → Str → List (Span F)
  detect load layers [] = []
  detect load layers (c ∷ s) =
      let (min_confidence, overlap_bonus) = merge_kwargs load in
      merge_spans (run_layers (active_layers load layers) (c ∷ s)) min_confidence overlap_bonus

  -- `analyze_turn` and `pii_detect_stage`
  unfoldable pub pii_detect_stage : Result (DetectConfig F) → Layers F → Context F → Context F
  pii_detect_stage load layers ctx = record ctx {
    new_turn_spans = elim (get_last? ctx.turns) [
      | none ↦ []
      | some turn ↦ detect load layers turn.text
    ];
  }
