-- ===== src/Session/Stage.antt =====
-- app/context/stage.py: the pipeline stage [3], and the memory of the purpose. The store is the
-- one of this process; what it hands to `on_expire` is the second answer.
use dlp_server.Base.{ℕ, suc, Bool, not, Option, none, some, List, [], ◌∷◌, ◌++◌, if◌then◌else◌}
use dlp_server.Base.Str.{Str, str, eq}
use dlp_server.Base.Float.{Float}
use dlp_server.Models.{Span, Context}
use dlp_server.Vault.Rows.{Db}
use dlp_server.Vault.Crypto.{External}
use dlp_server.Vault.Lifetime.{revoke_session}
use dlp_server.Session.Store.{SessionState, SessionStore, load, save, new_session}
use dlp_server.Session.Accumulator.{AccumulatorConfig, accumulate}

module _ {F : Type 0} where
  -- grouped.setdefault(span.type, []).append(span)
  unfoldable pub add_to_group : Span F → List (Str × List (Span F)) → List (Str × List (Span F))
  add_to_group span [] = (span.type, span ∷ []) ∷ []
  add_to_group span ((type, spans) ∷ rest) =
      let later = add_to_group span rest in
      if eq type span.type then (type, spans ++ span ∷ []) ∷ rest else (type, spans) ∷ later

  unfoldable pub group_onto :
      List (Span F) → List (Str × List (Span F)) → List (Str × List (Span F))
  group_onto [] grouped = grouped
  group_onto (span ∷ rest) grouped = group_onto rest (add_to_group span grouped)

  -- `_group_by_type`
  unfoldable pub group_by_type : List (Span F) → List (Str × List (Span F))
  group_by_type spans = group_onto spans []

  -- `_default_on_expire` for the state that a load dropped; a failing database only logs
  unfoldable pub on_expire : External → Bool → ℕ → Option (SessionState F) → Db → Db
  on_expire ext up now none db = db
  on_expire ext up now (some state) db = revoke_session ext up now state.session_id db

module _ {F : Type 0} ⦃fl : Float F⦄ where
  -- the state that `load` finds, or a new one
  unfoldable pub open_session :
      F → Str → SessionStore F → SessionState F × Option (SessionState F) × SessionStore F
  open_session now session_id store =
      let (found, expired, store') = load now session_id store in
      elim found [
        | none ↦ (new_session now session_id none store', expired, store')
        | some state ↦ (state, expired, store')
      ]

  unfoldable pub multiturn_stage :
      (Str → Str)
      → AccumulatorConfig F
      → F
      → Context F
      → SessionStore F
      → Context F × Option (SessionState F) × SessionStore F
  multiturn_stage sha256_hex cfg now ctx store =
      let (state, expired, store') = open_session now ctx.session_id store in
      let state' = accumulate sha256_hex cfg now ctx.new_turn_spans (suc state.turn_count) state in
      (
        record ctx {
          risk_score = state'.risk_score;
          accumulated = group_by_type ctx.new_turn_spans;
        },
        expired,
        save state' store',
      )

  unfoldable pub remember_purpose_stage :
      F → Context F → SessionStore F → Context F × Option (SessionState F) × SessionStore F
  remember_purpose_stage now ctx store = elim ctx.purpose [
    | none ↦ (ctx, none, store)
    | some purpose ↦
        if not (eq ctx.direction (str "input"))
        then (ctx, none, store)
        else let (state, expired, store') = open_session now ctx.session_id store in
          (ctx, expired, save (record state { purpose = some purpose }) store')
  ]

  -- `get_last_purpose`
  unfoldable pub get_last_purpose :
      F → Str → SessionStore F → Option Str × Option (SessionState F) × SessionStore F
  get_last_purpose now session_id store =
      let (found, expired, store') = load now session_id store in
      elim found [ none ↦ (none, expired, store') | some state ↦ (state.purpose, expired, store') ]
