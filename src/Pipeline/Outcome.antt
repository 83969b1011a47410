-- ===== src/Pipeline/Outcome.antt =====
-- pipeline.py: what each decision on a request means for the context that the stages end with.
use dlp_server.Base.{
  ◌≡◌, refl, sym, subst, Bool, true, false, ◌&&◌, Option, none, some, [], Result, ok, raised, inl,
  inr, ◌⊎◌, if_cases, arith, if◌then◌else◌,
}
use dlp_server.Base.Str.{str}
use dlp_server.Base.Float.{Float}
use dlp_server.Base.Unicode.{Unicode}
use dlp_server.Models.{Context, Decision}
use dlp_server.Pipeline.Run.{Config}
use dlp_server.Pipeline.Judge.{block_check, reason, judge, decided}

module _ {F : Type 0} ⦃fl : Float F⦄ where
  -- nothing in the context asks for a block
  abbrev pub IsClear : Context F → Config F → Bool → Type 0
  IsClear ctx cfg check_risk =
      (ctx.blocked ≡ false)
      × (ctx.injection.hit ≡ false)
      × ((check_risk && fl.le cfg.hard_block ctx.risk_score) ≡ false)

  -- something in it does
  abbrev pub IsFlagged : Context F → Config F → Bool → Type 0
  IsFlagged ctx cfg check_risk =
      (ctx.blocked ≡ true)
      ⊎ (ctx.injection.hit ≡ true)
      ⊎ ((check_risk && fl.le cfg.hard_block ctx.risk_score) ≡ true)

  IsFlagged-or_IsClear :
      (ctx : Context F) (cfg : Config F) (check_risk : Bool)
      → IsFlagged ctx cfg check_risk ⊎ IsClear ctx cfg check_risk
  IsFlagged-or_IsClear ctx cfg check_risk = ground arith

module _ {F Body : Type 0} where
  abbrev IsBlock : Option (Decision F Body) → Type 0
  IsBlock none = Unit × ⊥
  IsBlock (some d) = (d.action ≡ str "block") × (d.transformed_body ≡ none)

  block_of :
      (o : Option (Decision F Body))
      → IsBlock o
      → (d : Decision F Body) × (o ≡ some d)
        × (d.action ≡ str "block")
        × (d.transformed_body ≡ none)
  block_of none h = absurd h.1
  block_of (some d) h = (d, refl, h.0, h.1)

module _ {F : Type 0} ⦃fl : Float F⦄ ⦃u : Unicode⦄ (round4 : F → F) (Body : Type 0) where
  block_check-IsBlock :
      (ctx : Context F) (cfg : Config F) (check_risk : Bool)
      → IsFlagged ctx cfg check_risk
      → IsBlock (block_check round4 {Body = Body} ctx cfg check_risk)
  unfolding block_check
  block_check-IsBlock ctx cfg check_risk h =
      if_cases IsBlock ctx.blocked (λ _. (refl, refl))
        (λ b.
          if_cases IsBlock ctx.injection.hit (λ _. (refl, refl))
            (λ i.
              if_cases IsBlock (check_risk && fl.le cfg.hard_block ctx.risk_score)
                (λ _. (refl, refl)) (λ r. absurd (ground arith))))

module _ {F : Type 0} ⦃fl : Float F⦄ ⦃u : Unicode⦄ (round4 : F → F) {Body : Type 0} where
  -- the answers of a judgement, with the reasons for each
  pub data Judged (ctx : Context F) (cfg : Config F) (check_risk unchanged : Bool)
      (new_body : Result Body) : Result (Decision F Body) → Type 0 where
    blocked :
        (d : Decision F Body)
        → IsFlagged ctx cfg check_risk
        → d.action ≡ str "block"
        → d.transformed_body ≡ none
        → Judged ctx cfg check_risk unchanged new_body (ok d)
    allowed :
        (d : Decision F Body)
        → IsClear ctx cfg check_risk
        → unchanged ≡ true
        → d.action ≡ str "allow"
        → d.transformed_body ≡ none
        → Judged ctx cfg check_risk unchanged new_body (ok d)
    transformed :
        (d : Decision F Body) (body : Body)
        → IsClear ctx cfg check_risk
        → unchanged ≡ false
        → new_body ≡ ok body
        → d.action ≡ str "transform"
        → d.transformed_body ≡ some body
        → Judged ctx cfg check_risk unchanged new_body (ok d)
    rebuild_raised :
        IsClear ctx cfg check_risk
        → unchanged ≡ false
        → new_body ≡ raised
        → Judged ctx cfg check_risk unchanged new_body raised

  block_check-some :
      (ctx : Context F) (cfg : Config F) (check_risk : Bool)
      → IsFlagged ctx cfg check_risk
      → (d : Decision F Body) × (block_check round4 ctx cfg check_risk ≡ some d)
        × (d.action ≡ str "block")
        × (d.transformed_body ≡ none)
  block_check-some ctx cfg check_risk h =
      block_of (block_check round4 ctx cfg check_risk)
        (block_check-IsBlock round4 Body ctx cfg check_risk h)

  block_check-none :
      (ctx : Context F) (cfg : Config F) (check_risk : Bool)
      → IsClear ctx cfg check_risk
      → block_check round4 {Body = Body} ctx cfg check_risk ≡ none
  unfolding block_check
  block_check-none ctx cfg check_risk h = ground arith

  judge_clear :
      (ctx : Context F) (cfg : Config F) (check_risk unchanged : Bool) (new_body : Result Body)
      → IsClear ctx cfg check_risk
      → Judged ctx cfg check_risk unchanged new_body (
          if unchanged
          then ok (decided (str "allow") none (reason round4 ctx (str "allow") [] none))
          else elim new_body [
            | raised ↦ raised
            | ok body ↦ ok (
                decided (str "transform") (some body) (reason round4 ctx (str "transform") [] none))
          ])
  judge_clear ctx cfg check_risk true new_body c = allowed _ c refl refl refl
  judge_clear ctx cfg check_risk false (ok body) c = transformed _ body c refl refl refl refl
  judge_clear ctx cfg check_risk false raised c = rebuild_raised c refl refl

  judge_blocked :
      (ctx : Context F) (cfg : Config F) (check_risk unchanged : Bool) (new_body : Result Body)
      (d : Decision F Body)
      → block_check round4 ctx cfg check_risk ≡ some d
      → judge round4 ctx cfg check_risk unchanged new_body ≡ ok d
  unfolding judge
  judge_blocked ctx cfg check_risk unchanged new_body d e = ground (arith, e)

  judge_unblocked :
      (ctx : Context F) (cfg : Config F) (check_risk unchanged : Bool) (new_body : Result Body)
      → block_check round4 {Body = Body} ctx cfg check_risk ≡ none
      → judge round4 ctx cfg check_risk unchanged new_body ≡ (
          if unchanged
          then ok (decided (str "allow") none (reason round4 ctx (str "allow") [] none))
          else elim new_body [
            | raised ↦ raised
            | ok body ↦ ok (
                decided (str "transform") (some body) (reason round4 ctx (str "transform") [] none))
          ])
  unfolding judge
  judge_unblocked ctx cfg check_risk unchanged new_body e = ground (arith, e)

  -- The judgement after the stages is total: it blocks, with no body, exactly if the context is
  -- blocked, has an injection hit, or (where the risk counts) has a risk score of at least the
  -- limit; of a clear context an unchanged text is allowed as it came, a changed one is sent on
  -- as the rebuilt body, and only a rebuild that raises raises.
  pub judge-Judged :
      (ctx : Context F) (cfg : Config F) (check_risk unchanged : Bool) (new_body : Result Body)
      → Judged ctx cfg check_risk unchanged new_body
          (judge round4 ctx cfg check_risk unchanged new_body)
  judge-Judged ctx cfg check_risk unchanged new_body =
      elim (IsFlagged-or_IsClear ctx cfg check_risk) [
        | inl f ↦
            let (d, e, a, b) = block_check-some ctx cfg check_risk f in
            subst (Judged ctx cfg check_risk unchanged new_body)
              (sym (judge_blocked ctx cfg check_risk unchanged new_body d e)) (blocked d f a b)
        | inr c ↦
            subst (Judged ctx cfg check_risk unchanged new_body)
              (sym (
                judge_unblocked ctx cfg check_risk unchanged new_body
                  (block_check-none ctx cfg check_risk c)))
              (judge_clear ctx cfg check_risk unchanged new_body c)
      ]
