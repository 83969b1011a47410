-- ===== src/Detect/Isolation.antt =====
-- app/detect/__init__.py: a layer that raises takes nothing from the others.
use dlp_server.Base.{
  ◌≡◌, refl, ap, Bool, true, false, not, List, [], ◌∷◌, ◌++◌, Result, raised, filter, if_cases,
  if◌then◌else◌,
}
use dlp_server.Base.Str.{Str, contains, truthy}
use dlp_server.Base.Float.{Float}
use dlp_server.Base.Unicode.{Unicode}
use dlp_server.Models.{Span}
use dlp_server.Detect.Merge.{merge_spans}
use dlp_server.Detect.Layers.{
  DetectConfig, Layers, enabled, layer_names, active_layers, run_layers, merge_kwargs, detect,
}

if_cases_both {ℓ κ} :
    {A : Type ℓ} (P : A → A → Type κ) (b : Bool) {x y x' y' : A}
    → (b ≡ true → P x x')
    → (b ≡ false → P y y')
    → P (if b then x else y) (if b then x' else y')
if_cases_both P true f g = f refl
if_cases_both P false f g = g refl

module _ {F : Type 0} where
  run_layers-cons :
      (name : Str) (layer : Str → Result (List (Span F))) (rest : Layers F) (text : Str)
      → layer text ≡ raised
      → run_layers ((name, layer) ∷ rest) text ≡ run_layers rest text
  unfolding run_layers
  run_layers-cons name layer rest text e = rw e refl

  run_layers-tail :
      (n : Str) (l : Str → Result (List (Span F))) (ls ls' : Layers F) (text : Str)
      → run_layers ls text ≡ run_layers ls' text
      → run_layers ((n, l) ∷ ls) text ≡ run_layers ((n, l) ∷ ls') text
  unfolding run_layers
  run_layers-tail n l ls ls' text e = rw e refl

  run_layers-filter :
      (keep : Str × (Str → Result (List (Span F))) → Bool) (name : Str)
      (layer : Str → Result (List (Span F))) (before after : Layers F) (text : Str)
      → layer text ≡ raised
      → run_layers (filter keep (before ++ (name, layer) ∷ after)) text
        ≡ run_layers (filter keep (before ++ after)) text
  run_layers-filter keep name layer [] after text e =
      if_cases (λ (ls : Layers F). run_layers ls text ≡ run_layers (filter keep after) text)
        (keep (name, layer)) (λ _. run_layers-cons name layer (filter keep after) text e)
        (λ _. refl)
  run_layers-filter keep name layer ((n, l) ∷ before) after text e =
      if_cases_both (λ (ls ls' : Layers F). run_layers ls text ≡ run_layers ls' text) (keep (n, l))
        (λ _. run_layers-tail n l _ _ text (run_layers-filter keep name layer before after text e))
        (λ _. run_layers-filter keep name layer before after text e)

  run_layers-without :
      (name : Str) (layer : Str → Result (List (Span F))) (before after : Layers F) (text : Str)
      → layer text ≡ raised
      → run_layers (before ++ (name, layer) ∷ after) text ≡ run_layers (before ++ after) text
  run_layers-without name layer [] after text e = run_layers-cons name layer after text e
  run_layers-without name layer ((n, l) ∷ before) after text e =
      run_layers-tail n l _ _ text (run_layers-without name layer before after text e)

module _ {F : Type 0} ⦃fl : Float F⦄ ⦃u : Unicode⦄ where
  active_layers-raising :
      (load : Result (DetectConfig F)) (name : Str) (layer : Str → Result (List (Span F)))
      (before after : Layers F) (text : Str)
      → layer text ≡ raised
      → run_layers (active_layers load (before ++ (name, layer) ∷ after)) text
        ≡ run_layers (active_layers load (before ++ after)) text
  unfolding active_layers
  active_layers-raising load name layer before after text e =
      if_cases_both (λ (ls ls' : Layers F). run_layers ls text ≡ run_layers ls' text)
        (not (truthy (enabled load))) (λ _. run_layers-without name layer before after text e)
        (λ _.
          run_layers-filter (λ p. contains (layer_names (enabled load)) p.0) name layer before after
            text e)

  -- Whatever the configuration, and whether or not it can be loaded, a text is searched as if a
  -- layer that raises on it were not in the table: the spans of the other layers are all kept,
  -- and merged in the same way.
  pub detect-raising_layer :
      (load : Result (DetectConfig F)) (name : Str) (layer : Str → Result (List (Span F)))
      (before after : Layers F) (text : Str)
      → layer text ≡ raised
      → detect load (before ++ (name, layer) ∷ after) text ≡ detect load (before ++ after) text
  unfolding detect
  detect-raising_layer load name layer before after [] e = refl
  detect-raising_layer load name layer before after (c ∷ s) e =
      ap (λ spans. merge_spans spans (merge_kwargs load).0 (merge_kwargs load).1)
        (active_layers-raising load name layer before after (c ∷ s) e)
