-- ===== src/Detect/Ner/Single.antt =====
-- detect/ner.py: however the callers interleave, one engine is made and all get it.
use dlp_server.Base.{
  ℕ, suc, ◌==◌, ◌≤◌, ◌≡◌, ◌≢◌, refl, sym, subst, ◌∙◌, ap, inl, inr, ◌⊎◌, false, Option, none, some,
  arith, Bool-cases,
}
use dlp_server.Detect.Ner.Engine.{
  Settings, Caller, begins, waits, holds, builds, leaves, got, State, set, after_test, Step,
  first_test, acquire, found, missing, make, return, Reach, start, more,
}

-- there is an engine
abbrev pub IsMade : {F : Type 0} → Option (Settings F) → Type 0
IsMade none = ⊥
IsMade (some e) = Unit

-- the number of the engines that were made
abbrev pub expected : {F : Type 0} → Option (Settings F) → ℕ
expected none = 0
expected (some e) = 1

-- what holds of a caller by the place where it stands
abbrev Stands : {F : Type 0} → Option (Settings F) → Option ℕ → ℕ → Caller F → Type 0
Stands engine lock i (begins c) = Unit
Stands engine lock i (waits c) = Unit
Stands engine lock i (holds c) = lock ≡ some i
Stands engine lock i (builds c) = (lock ≡ some i) × (engine ≡ none)
Stands engine lock i leaves = IsMade engine
Stands engine lock i (got o) = (o ≡ engine) × IsMade engine

record IsConsistent {F : Type 0} (s : State F) : Type 0 where
  counted : s.made ≡ expected s.engine
  standing : (j : ℕ) → Stands s.engine s.lock j (s.callers j)

not_under :
    (lock : Option ℕ) (i j : ℕ)
    → (lock ≡ none) ⊎ (lock ≡ some i)
    → (j == i) ≡ false
    → lock ≡ some j
    → ⊥
not_under lock i j (inl e) n h = cc
not_under lock i j (inr e) n h = let q : i ≡ j = cc in ground arith

module _ {F : Type 0} where
  -- The caller that moved stands right, and the others stand right in the new state.
  moved :
      (engine : Option (Settings F)) (lock : Option ℕ) (callers : ℕ → Caller F) (i : ℕ)
      (c : Caller F)
      → Stands engine lock i c
      → ((j : ℕ) → (j == i) ≡ false → Stands engine lock j (callers j))
      → (j : ℕ) → Stands engine lock j (set callers i c j)
  moved engine lock callers i c h others j = elim (Bool-cases (j == i)) [
    | inl t ↦ let e : i ≡ j = ground arith in rw t (subst (λ k. Stands engine lock k c) e h)
    | inr f ↦ rw f (others j f)
  ]

  after_test-Stands :
      (engine : Option (Settings F)) (lock : Option ℕ) (i : ℕ) (c : Settings F)
      → Stands engine lock i (after_test engine (waits c))
  after_test-Stands none lock i c = tt
  after_test-Stands (some e) lock i c = tt

  IsMade-some : (o : Option (Settings F)) (e : Settings F) → o ≡ some e → IsMade o
  IsMade-some (some x) e h = tt
  IsMade-some none e h = cc

  -- Nobody else is under a lock that is free, or that `i` has.
  others_free :
      (engine : Option (Settings F)) (lock lock' : Option ℕ) (i j : ℕ) (c : Caller F)
      → (lock ≡ none) ⊎ (lock ≡ some i)
      → (j == i) ≡ false
      → Stands engine lock j c
      → Stands engine lock' j c
  others_free engine lock lock' i j (begins c) l n h = tt
  others_free engine lock lock' i j (waits c) l n h = tt
  others_free engine lock lock' i j (holds c) l n h = absurd (not_under lock i j l n h)
  others_free engine lock lock' i j (builds c) l n h = absurd (not_under lock i j l n h.0)
  others_free engine lock lock' i j leaves l n h = h
  others_free engine lock lock' i j (got o) l n h = h

  not_made : (o : Option (Settings F)) → o ≡ none → IsMade o → ⊥
  not_made none e h = h
  not_made (some x) e h = cc

  -- Before an engine was made nobody has passed the tests.
  others_made :
      (engine next : Option (Settings F)) (lock lock' : Option ℕ) (i j : ℕ) (c : Caller F)
      → engine ≡ none
      → lock ≡ some i
      → (j == i) ≡ false
      → Stands engine lock j c
      → Stands next lock' j c
  others_made engine next lock lock' i j (begins c) e l n h = tt
  others_made engine next lock lock' i j (waits c) e l n h = tt
  others_made engine next lock lock' i j (holds c) e l n h = absurd (not_under lock i j (inr l) n h)
  others_made engine next lock lock' i j (builds c) e l n h =
      absurd (not_under lock i j (inr l) n h.0)
  others_made engine next lock lock' i j leaves e l n h = absurd (not_made engine e h)
  others_made engine next lock lock' i j (got o) e l n h = absurd (not_made engine e h.1)

  Step-IsConsistent : {i : ℕ} {s t : State F} → Step i s t → IsConsistent s → IsConsistent t
  Step-IsConsistent {i} {s} (first_test c q e) v = subst IsConsistent (sym e) (record {
    counted = v.counted;
    standing =
        moved s.engine s.lock s.callers i (after_test s.engine (waits c))
          (after_test-Stands s.engine s.lock i c) (λ j n. v.standing j);
  })
  Step-IsConsistent {i} {s} (acquire c q l e) v = subst IsConsistent (sym e) (record {
    counted = v.counted;
    standing =
        moved s.engine (some i) s.callers i (holds c) refl
          (λ j n. others_free s.engine s.lock (some i) i j (s.callers j) (inl l) n (v.standing j));
  })
  Step-IsConsistent {i} {s} (found c x q m e) v =
      let l : s.lock ≡ some i = subst (λ y. Stands s.engine s.lock i y) q (v.standing i) in
      subst IsConsistent (sym e) (record {
        counted = v.counted;
        standing =
            moved s.engine none s.callers i leaves (IsMade-some s.engine x m)
              (λ j n. others_free s.engine s.lock none i j (s.callers j) (inr l) n (v.standing j));
      })
  Step-IsConsistent {i} {s} (missing c q m e) v =
      let l : s.lock ≡ some i = subst (λ y. Stands s.engine s.lock i y) q (v.standing i) in
      subst IsConsistent (sym e) (record {
        counted = v.counted;
        standing = moved s.engine s.lock s.callers i (builds c) (l, m) (λ j n. v.standing j);
      })
  Step-IsConsistent {i} {s} (make c q e) v =
      let w : (s.lock ≡ some i) × (s.engine ≡ none) =
        subst (λ y. Stands s.engine s.lock i y) q (v.standing i) in
      subst IsConsistent (sym e) (record {
        counted = ap suc (v.counted ∙ ap (λ (o : Option (Settings F)). expected o) w.1);
        standing = moved (some c) none s.callers i leaves tt (λ j n.
            others_made s.engine (some c) s.lock none i j (s.callers j) w.1 w.0 n (v.standing j));
      })
  Step-IsConsistent {i} {s} (return q e) v =
      let m : IsMade s.engine = subst (λ y. Stands s.engine s.lock i y) q (v.standing i) in
      subst IsConsistent (sym e) (record {
        counted = v.counted;
        standing = moved s.engine s.lock s.callers i (got s.engine) (refl, m) (λ j n. v.standing j);
      })

  Reach-IsConsistent : {s t : State F} → Reach s t → IsConsistent s → IsConsistent t
  Reach-IsConsistent start v = v
  Reach-IsConsistent (more i r st) v = Step-IsConsistent st (Reach-IsConsistent r v)

-- nobody has called yet
abbrev pub initial : {F : Type 0} → (ℕ → Settings F) → State F
initial wanted = record { engine = none; made = 0; lock = none; callers = λ i. begins (wanted i) }

at_most_one : {F : Type 0} (o : Option (Settings F)) → expected o ≤ 1
at_most_one none = omega arith
at_most_one (some e) = omega arith

-- However the threads that call `get_ner_engine` interleave, whatever each asks for: at most one
-- engine is made, and two callers that have returned have the same engine, and not None.
pub Reach-SingleEngine :
    {F : Type 0} (wanted : ℕ → Settings F) (s : State F) (i j : ℕ) (a b : Option (Settings F))
    → Reach (initial wanted) s
    → s.callers i ≡ got a
    → s.callers j ≡ got b
    → (s.made ≤ 1) × (a ≡ b) × (a ≢ none)
Reach-SingleEngine wanted s i j a b r p q =
    let v = Reach-IsConsistent r (record { counted = refl; standing = λ k. tt }) in
    let x : (a ≡ s.engine) × IsMade s.engine =
      subst (λ y. Stands s.engine s.lock i y) p (v.standing i) in
    let y : (b ≡ s.engine) × IsMade s.engine =
      subst (λ z. Stands s.engine s.lock j z) q (v.standing j) in
    (
      subst (λ n. n ≤ 1) (sym v.counted) (at_most_one s.engine),
      x.0 ∙ sym y.0,
      λ n. not_made s.engine (sym x.0 ∙ n) x.1,
    )
