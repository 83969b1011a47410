-- ===== src/Pipeline/Run.antt =====
-- pipeline.py and adapters: the interfaces of the stages and of the adapters, and `_run_stages`.
-- The state that the stages share is `W`; a stage that raises keeps the changes that it made.
use dlp_server.Base.{
  Bool, true, false, ◌&&◌, List, [], ◌∷◌, map, Result, ok, raised, ◌>>=◌, if◌then◌else◌,
}
use dlp_server.Base.Str.{Str, eq}
use dlp_server.Models.{Turn, Context}

-- `Adapter` of adapters/base.py
pub record Adapter (Body : Type 0) : Type 0 where
  pub name : Str
  pub matches : Str → List (Str × Str) → Body → Result Bool
  pub extract_turns : Body → Result (List Turn)
  pub rebuild : Body → List Turn → Result Body
  pub parse_response : Body → Result Str
  pub rebuild_response : Body → Str → Result Body

-- the fields of Config that the pipeline reads
pub record Config (F : Type 0) : Type 0 where
  pub fail_action : Str
  pub hard_block : F
  pub log_sink : Str

abbrev pub Stage : Type 0 → Type 0 → Type 0
Stage F W = Context F → W → Result (Context F) × W

module _ {Body : Type 0} where
  -- `select_adapter`
  unfoldable pub select_adapter :
      List (Adapter Body) → Adapter Body → Str → List (Str × Str) → Body → Result (Adapter Body)
  select_adapter [] gateway path headers body = ok gateway
  select_adapter (a ∷ rest) gateway path headers body =
      let later = select_adapter rest gateway path headers body in
      a.matches path headers body >>= λ here. if here then ok a else later

module _ {F W : Type 0} where
  -- `_run_stages`
  unfoldable pub run_stages : List (Stage F W) → Context F → W → Result (Context F) × W
  run_stages [] ctx w = (ok ctx, w)
  run_stages (stage ∷ rest) ctx w =
      let (answer, w') = stage ctx w in
      elim answer [
        | raised ↦ (raised, w')
        | ok ctx' ↦
            let (later, w'') = run_stages rest ctx' w' in
            (if ctx'.blocked then ok ctx' else later, if ctx'.blocked then w' else w'')
      ]

abbrev pub texts : List Turn → List Str
texts turns = map (λ t. t.text) turns

-- xs == ys of two lists of texts
unfoldable pub same_texts : List Str → List Str → Bool
same_texts [] [] = true
same_texts [] (y ∷ ys) = false
same_texts (x ∷ xs) [] = false
same_texts (x ∷ xs) (y ∷ ys) = eq x y && same_texts xs ys

-- ctx.turns[0].text if ctx.turns else text
abbrev pub first_text : List Turn → Str → Str
first_text [] text = text
first_text (t ∷ rest) text = t.text
