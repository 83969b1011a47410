-- ===== src/Detect/Ner/Engine.antt =====
-- `get_ner_engine` of app/detect/ner.py, called by several threads: the test without the lock, the
-- lock, and the test under it.
use dlp_server.Base.{ℕ, suc, ◌==◌, ◌≡◌, Option, none, some, if◌then◌else◌}
use dlp_server.Base.Str.{Str, truthy}

-- An engine is known by its number; two engines are two numbers.
pub record Settings (F : Type 0) : Type 0 where
  pub model_name : Str
  pub threshold : F

-- model_name or DEFAULT_MODEL_NAME, and the threshold unless it is None
unfoldable pub settings : {F : Type 0} → Str → F → Option Str → Option F → Settings F
settings default_name default_threshold name threshold = record {
  model_name = elim name [ none ↦ default_name | some n ↦ if truthy n then n else default_name ];
  threshold = elim threshold [ none ↦ default_threshold | some t ↦ t ];
}

-- where a caller stands
pub data Caller (F : Type 0) : Type 0 where
  -- before the first `if _engine is None`
  begins : Settings F → Caller F
  -- before `with _engine_lock`
  waits : Settings F → Caller F
  -- under the lock, before the second test
  holds : Settings F → Caller F
  -- under the lock, before the assignment
  builds : Settings F → Caller F
  -- before `return _engine`
  leaves : Caller F
  -- with the engine that it got
  got : Option (Settings F) → Caller F

-- The global `_engine`, the engines that were made, the caller that has the lock, and the callers.
pub record State (F : Type 0) : Type 0 where
  pub engine : Option (Settings F)
  pub made : ℕ
  pub lock : Option ℕ
  pub callers : ℕ → Caller F

abbrev pub set {ℓ} : {A : Type ℓ} → (ℕ → A) → ℕ → A → ℕ → A
set f i v j = if j == i then v else f j

-- the place after a test of `_engine`
abbrev pub after_test : {F : Type 0} → Option (Settings F) → Caller F → Caller F
after_test none next = next
after_test (some e) next = leaves

-- One step of the caller `i`. The last one under the lock releases it.
pub data Step {F : Type 0} (i : ℕ) (s : State F) : State F → Type 0 where
  first_test :
      (c : Settings F) {t : State F}
      → s.callers i ≡ begins c
      → t ≡ record s { callers = set s.callers i (after_test s.engine (waits c)) }
      → Step i s t
  acquire :
      (c : Settings F) {t : State F}
      → s.callers i ≡ waits c
      → s.lock ≡ none
      → t ≡ record s { lock = some i; callers = set s.callers i (holds c) }
      → Step i s t
  found :
      (c e : Settings F) {t : State F}
      → s.callers i ≡ holds c
      → s.engine ≡ some e
      → t ≡ record s { lock = none; callers = set s.callers i leaves }
      → Step i s t
  missing :
      (c : Settings F) {t : State F}
      → s.callers i ≡ holds c
      → s.engine ≡ none
      → t ≡ record s { callers = set s.callers i (builds c) }
      → Step i s t
  make :
      (c : Settings F) {t : State F}
      → s.callers i ≡ builds c
      → t ≡ record s {
        engine = some c;
        made = suc s.made;
        lock = none;
        callers = set s.callers i leaves;
      }
      → Step i s t
  return :
      {t : State F}
      → s.callers i ≡ leaves
      → t ≡ record s { callers = set s.callers i (got s.engine) }
      → Step i s t

pub data Reach {F : Type 0} (s : State F) : State F → Type 0 where
  start : Reach s s
  more : {t u : State F} (i : ℕ) → Reach s t → Step i t u → Reach s u
