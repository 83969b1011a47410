-- ===== src/Guard/Output.antt =====
-- app/guardrail/output_check.py: the output guard. What finds the candidates in the answer is
-- `detect` of regex_rules.py, an argument here, which may raise; so may loading the configuration
-- and each rule's search. The log lines are left out.
use dlp_server.Base.{
  Bool, true, not, Option, none, some, List, [], ◌∷◌, map, Result, ok, raised, filter,
  if◌then◌else◌,
}
use dlp_server.Base.Str.{Str, str, eq}
use dlp_server.Base.Float.{Float}
use dlp_server.Base.Unicode.{Unicode}
use dlp_server.Models.{Turn, Span, Context}
use dlp_server.Purpose.Classifier.{Pattern, found}
use dlp_server.Transform.Mask.{mask_preview}
use dlp_server.Transform.Splice.{Replacement, replace_spans}

-- the fields of GuardrailConfig that the guard reads
pub record GuardrailConfig (F : Type 0) : Type 0 where
  pub output_pii_min_confidence : F
  pub output_injection_check : Bool

-- `_injection_compliance`: the first rule whose pattern is found; one that raises is passed over
unfoldable pub injection_compliance : List Pattern → Str → Option Str
injection_compliance [] text = none
injection_compliance (r ∷ rest) text =
    let later = injection_compliance rest text in if found r text then some r.name else later

module _ {F : Type 0} ⦃u : Unicode⦄ where
  abbrev pub masked : Span F → Replacement
  masked span = record { start = span.start; end = span.end; new_value = mask_preview span }

module _ {F : Type 0} ⦃fl : Float F⦄ ⦃u : Unicode⦄ where
  -- `_rescan_and_mask`, once the candidates are found
  unfoldable pub rescan_and_mask : List (Span F) → Str → F → Str × List (Span F)
  rescan_and_mask all_spans text min_confidence =
      let spans = filter (λ s. fl.le min_confidence s.confidence) all_spans in
      (replace_spans text (map masked spans), spans)

  -- what a stage's block leaves in the context
  unfoldable pub guard_block : Context F → Str → Option Str → Context F
  guard_block ctx note pattern = record ctx {
    blocked = true;
    block_reason = some (elim pattern [
      | none ↦ (str "type", some (str "output_guard")) ∷ (str "note", some note) ∷ []
      | some p ↦
          (str "type", some (str "output_guard"))
          ∷ (str "note", some note)
          ∷ (str "pattern", some p)
          ∷ []
    ]);
  }

  -- The body of the `try`, from the candidates on: the spans are noted, then an answer that
  -- complies with an injection is blocked, else its text is replaced.
  unfoldable pub check_answer :
      List Pattern → GuardrailConfig F → Context F → Turn → List Turn → List (Span F) → Context F
  check_answer rules cfg ctx turn rest all_spans =
      let (text, spans) = rescan_and_mask all_spans turn.text cfg.output_pii_min_confidence in
      let noted = record ctx {
        new_turn_spans = spans;
        span_actions = map (λ s. (s, str "mask")) spans;
      } in
      let replaced = record noted { turns = record turn { text = text } ∷ rest } in
      if cfg.output_injection_check
      then elim (injection_compliance rules text) [
        | none ↦ replaced
        | some hit ↦ guard_block noted (str "injection_compliance") (some hit)
      ]
      else replaced

  unfoldable pub output_guard :
      List Pattern
      → Result (GuardrailConfig F)
      → (Str → Result (List (Span F)))
      → Context F
      → Context F
  output_guard rules load detect ctx =
      if not (eq ctx.direction (str "output")) then ctx else elim ctx.turns [
        | [] ↦ ctx
        | turn ∷ rest ↦ elim load [
          | raised ↦ guard_block ctx (str "stage_error") none
          | ok cfg ↦ elim (detect turn.text) [
            | raised ↦ guard_block ctx (str "stage_error") none
            | ok all_spans ↦ check_answer rules cfg ctx turn rest all_spans
          ]
        ]
      ]
