-- ===== src/Transform/Stage.antt =====
-- `transform_stage` of apply.py, the pipeline stage [6], and `detokenize_stage`.
use dlp_server.Base.{
  ℕ, suc, Bool, not, Option, none, some, List, [], ◌∷◌, ◌++◌, map, Result, ok, raised,
  if◌then◌else◌, filter,
}
use dlp_server.Base.Str.{Str, str, eq}
use dlp_server.Base.Float.{Float}
use dlp_server.Base.Unicode.{Unicode}
use dlp_server.Models.{Turn, Span, Context}
use dlp_server.Vault.Rows.{Scope, Db}
use dlp_server.Vault.Crypto.{External}
use dlp_server.Vault.Tokenize.{tokenize}
use dlp_server.Vault.Scan.{detokenize_text}
use dlp_server.Transform.Mask.{mask}
use dlp_server.Transform.Generalize.{Amounts, generalize, synthetic, append_aggregate_summary}
use dlp_server.Transform.Splice.{Replacement, replace_spans}

-- What the stage takes from its surroundings: the database and its clock, the vault's libraries
-- and time to live, the nonces and the draws of the random generators by their number, the year,
-- and the formats of the aggregate.
pub record Env (F : Type 0) : Type 0 where
  pub up : Bool
  pub now : ℕ
  pub ext : External
  pub vault_ttl_sec : ℕ
  pub nonce : ℕ → List ℕ
  pub draw : ℕ → ℕ
  pub year : ℕ
  pub amounts : Amounts F

-- what it changes: the vault, and how many draws were made
pub record World : Type 0 where
  pub db : Db
  pub draws : ℕ

-- _REDACT_TEXT
unfoldable pub redact_text : Str
redact_text = str "[삭제됨]"

-- [x] if x else ["*"]
abbrev pub only_or_any : Option Str → List Str
only_or_any none = str "*" ∷ []
only_or_any (some []) = str "*" ∷ []
only_or_any (some (c ∷ s)) = (c ∷ s) ∷ []

-- `_access_scope`
unfoldable pub access_scope : {F : Type 0} → Context F → Scope
access_scope ctx =
    (str "roles", only_or_any ctx.role) ∷ (str "purposes", only_or_any ctx.purpose) ∷ []

abbrev pub or_redact : Result Str → Str
or_redact (ok label) = label
or_redact raised = redact_text

abbrev pub is_aggregate : {F : Type 0} → Span F × Str → Bool
is_aggregate (span, action) = eq action (str "aggregate")

-- the last turn, and the turns before it
unfoldable pub split_last : List Turn → Option (List Turn × Turn)
split_last [] = none
split_last (t ∷ rest) = elim (split_last rest) [
  | none ↦ some ([], t)
  | some (front, last) ↦ some (t ∷ front, last)
]

module _ {F : Type 0} ⦃fl : Float F⦄ ⦃u : Unicode⦄ (env : Env F) where
  -- `_tokenize`: the vault's failure gives the redaction
  unfoldable pub tokenize_span : Context F → Span F → World → Str × World
  tokenize_span ctx span w =
      let (answer, db) =
        tokenize env.ext env.up env.now env.vault_ttl_sec (env.nonce w.draws) ctx.session_id
          span.type span.value (some (access_scope ctx)) w.db in
      (or_redact answer, record { db = db; draws = suc w.draws })

  -- `_render`; an unknown action keeps the value
  unfoldable pub render : Str → Context F → Span F → World → Str × World
  render action ctx span w =
      if eq action (str "keep")
      then (span.value, w)
      else if eq action (str "mask")
      then (mask span.type span.value, w)
      else if eq action (str "generalize")
      then (generalize env.year span.type span.value, w)
      else if eq action (str "tokenize")
      then tokenize_span ctx span w
      else if eq action (str "synthetic")
      then (let (value, k) = synthetic env.draw w.draws span.type span.value in
          (value, record w { draws = k }))
      else if eq action (str "redact")
      then (redact_text, w)
      else (span.value, w)

  abbrev pub at_span : Span F → Str → Replacement
  at_span span value = record { start = span.start; end = span.end; new_value = value }

  -- the loop over `per_span`
  unfoldable pub render_all : Context F → List (Span F × Str) → World → List Replacement × World
  render_all ctx [] w = ([], w)
  render_all ctx ((span, action) ∷ rest) w =
      let (value, w') = render action ctx span w in
      let (replacements, w'') = render_all ctx rest w' in (at_span span value ∷ replacements, w'')

  -- The text of the last turn after the stage.
  unfoldable pub transform_text : Context F → Str → World → Str × World
  transform_text ctx text w =
      let per_span = filter (λ p. not (is_aggregate p)) ctx.span_actions in
      let group = map (λ p. p.0) (filter is_aggregate ctx.span_actions) in
      let (replacements, w') = render_all ctx per_span w in
      let replaced = replace_spans text (replacements ++ map (λ s. at_span s []) group) in
      (
        elim group [
          | [] ↦ replaced
          | s ∷ rest ↦ append_aggregate_summary env.amounts replaced (s ∷ rest)
        ],
        w',
      )

  unfoldable pub transform_stage : Context F → World → Context F × World
  transform_stage ctx w = elim ctx.span_actions [
    | [] ↦ (ctx, w)
    | a ∷ rest ↦ elim (split_last ctx.turns) [
      | none ↦ (ctx, w)
      | some (front, last) ↦
          let (text, w') = transform_text ctx last.text w in
          (record ctx { turns = front ++ record last { text = text } ∷ [] }, w')
    ]
  ]

  -- `detokenize_stage`, with the purpose that the session store gave
  unfoldable pub detokenize_stage : Option Str → Context F → World → Context F × World
  detokenize_stage purpose ctx w =
      if not (eq ctx.direction (str "output")) then (ctx, w) else elim ctx.turns [
        | [] ↦ (ctx, w)
        | turn ∷ rest ↦
            let (text, db) =
              detokenize_text env.ext env.up env.now ctx.session_id ctx.role purpose turn.text
                w.db in
            (record ctx { turns = record turn { text = text } ∷ rest }, record w { db = db })
      ]
