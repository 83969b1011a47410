-- ===== src/Detect/Ner.antt =====
-- app/detect/ner.py: the entities that the model finds, as spans. The model is the library's: what
-- it loads and predicts is an argument.
mod Tests
pub mod Engine
pub mod Single
use dlp_server.Base.{
  ℕ, ◌+◌, ◌==◌, Bool, true, false, ◌&&◌, ◌||◌, not, Option, none, some, List, [], ◌∷◌, ◌++◌, map,
  length, Result, ok, raised, if◌then◌else◌,
}
use dlp_server.Base.Str.{Str, str, eq, lookup, truthy}
use dlp_server.Base.Unicode.{Unicode, strip}
use dlp_server.Models.{Span}
use dlp_server.Policy.Condition.{after}

-- LABEL_TO_SPAN_TYPE
abbrev pub label_to_span_type : List (Str × Str)
label_to_span_type =
    (str "사람 이름", str "NAME")
    ∷ (str "주소", str "ADDRESS")
    ∷ (str "회사명", str "ORG")
    ∷ (str "내부 프로젝트명", str "PROJECT")
    ∷ (str "연체 정보", str "CREDIT_INFO")
    ∷ (str "대출 잔액", str "CREDIT_INFO")
    ∷ (str "신용등급", str "CREDIT_INFO")
    ∷ []

-- GLINER_LABELS
abbrev pub gliner_labels : List Str
gliner_labels = map (λ e. e.0) label_to_span_type

-- the alternatives of _TRAILING_PARTICLES, in their order
abbrev pub particles : List Str
particles =
    str "님의"
    ∷ str "님"
    ∷ str "씨가"
    ∷ str "씨는"
    ∷ str "씨"
    ∷ str "이고"
    ∷ str "이며"
    ∷ str "으로"
    ∷ str "에서"
    ∷ str "에게"
    ∷ str "은"
    ∷ str "는"
    ∷ str "이"
    ∷ str "가"
    ∷ str "을"
    ∷ str "를"
    ∷ str "의"
    ∷ str "에"
    ∷ str "로"
    ∷ []

-- $ after an alternative: the end of the text, or a line feed that ends it
unfoldable pub at_end : Option Str → Bool
at_end none = false
at_end (some []) = true
at_end (some (c ∷ [])) = c == 10
at_end (some (c ∷ d ∷ s)) = false

-- what follows the first alternative that matches here
unfoldable pub particle_at : List Str → Str → Option Str
particle_at [] s = none
particle_at (p ∷ ps) s =
    let rest = particle_at ps s in if at_end (after p s) then after p s else rest

-- `_TRAILING_PARTICLES.sub("", text)`: the match that begins first; none follows it
abbrev pub or_later : Option Str → Str → Str
or_later none later = later
or_later (some rest) later = rest

unfoldable pub without_particle : Str → Str
without_particle [] = []
without_particle (c ∷ s) = or_later (particle_at particles (c ∷ s)) (c ∷ without_particle s)

-- `_trim_trailing_particle`
unfoldable pub trim_trailing_particle : Str → Str
trim_trailing_particle text =
    let trimmed = without_particle text in if truthy trimmed then trimmed else text

-- an entity of the model
pub record Entity (F : Type 0) : Type 0 where
  pub label : Str
  pub text : Str
  pub start : ℕ
  pub end : ℕ
  pub score : F

-- what the model predicts; loading or running it may raise
abbrev pub Model : Type 0 → Type 0
Model F = Str → List Str → F → Result (List (Entity F))

module _ {F : Type 0} where
  -- the span of an entity with a type and its trimmed text, unless this is empty
  abbrev pub span_of : Str → Entity F → Str → List (Span F)
  span_of type e trimmed =
      if truthy trimmed
      then record {
        type = type;
        value = trimmed;
        start = e.start;
        end = if eq trimmed e.text then e.end else e.start + length trimmed;
        confidence = e.score;
        source = str "ner";
      }
        ∷ []
      else []

  -- one round of the loop over the entities
  unfoldable pub entity_spans : Option Str → Entity F → List (Span F)
  entity_spans none e = []
  entity_spans (some type) e = span_of type e (trim_trailing_particle e.text)

  unfoldable pub spans_of : List (Entity F) → List (Span F)
  spans_of [] = []
  spans_of (e ∷ entities) = entity_spans (lookup e.label label_to_span_type) e ++ spans_of entities

  -- what the exception of the model leaves
  abbrev pub or_nothing : Result (List (Entity F)) → List (Span F)
  or_nothing raised = []
  or_nothing (ok entities) = spans_of entities

  -- `NEREngine.extract`; `not text or not text.strip()`
  unfoldable pub extract : ⦃u : Unicode⦄ → Model F → F → Str → List (Span F)
  extract model threshold text =
      if truthy (strip text) then or_nothing (model text gliner_labels threshold) else []
