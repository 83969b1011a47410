-- ===== src/Pipeline/Ran.antt =====
-- pipeline.py: one turn of the loop of `_run_stages`.
use dlp_server.Base.{◌≡◌, true, false, List, ◌∷◌, ok, raised, arith}
use dlp_server.Models.{Context}
use dlp_server.Pipeline.Run.{Stage, run_stages}

module _ {F W : Type 0} where
  pub run_stages_raised :
      (stage : Stage F W) (rest : List (Stage F W)) (ctx : Context F) (w : W)
      → (stage ctx w).0 ≡ raised
      → run_stages (stage ∷ rest) ctx w ≡ (raised, (stage ctx w).1)
  unfolding run_stages
  run_stages_raised stage rest ctx w e = ground (arith, e)

  pub run_stages_blocked :
      (stage : Stage F W) (rest : List (Stage F W)) (ctx : Context F) (w : W) (ctx' : Context F)
      → (stage ctx w).0 ≡ ok ctx'
      → ctx'.blocked ≡ true
      → run_stages (stage ∷ rest) ctx w ≡ (ok ctx', (stage ctx w).1)
  unfolding run_stages
  run_stages_blocked stage rest ctx w ctx' e b = ground (arith, e, b)

  pub run_stages_passed :
      (stage : Stage F W) (rest : List (Stage F W)) (ctx : Context F) (w : W) (ctx' : Context F)
      → (stage ctx w).0 ≡ ok ctx'
      → ctx'.blocked ≡ false
      → run_stages (stage ∷ rest) ctx w ≡ run_stages rest ctx' (stage ctx w).1
  unfolding run_stages
  run_stages_passed stage rest ctx w ctx' e b = ground (arith, e, b)
