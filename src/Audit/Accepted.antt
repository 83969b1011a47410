-- ===== src/Audit/Accepted.antt =====
-- logging/bus.py: what the acts of other threads put into a queue.
use dlp_server.Base.{
  ℕ, ◌<◌, ◌≤◌, ◌==◌, ltb, ◌≡◌, refl, ap, ◌∙◌, inl, inr, Option, none, some, List, [], ◌∷◌, ◌++◌,
  length, length-append, if◌then◌else◌, arith, Bool-cases,
}
use mathlib.Core.List.{append_assoc, append-nil}
use dlp_server.Audit.Bus.{
  maxsize, Bus, get_elem?, erase_at, Act, subscribes, unsubscribes, publishes, delivers, subscribe,
  unsubscribe, put_nowait, snapshot, put_pending, deliver, act, acts,
}

-- The event that an act puts into the queue `q`, if any.
module _ {Ev : Type 0} (q : ℕ) where
  abbrev pub taken_in : Option (Ev × ℕ) → (ℕ → List Ev) → List Ev
  taken_in none queue = []
  taken_in (some (e, p)) queue =
      if p == q then (if ltb (length (queue p)) maxsize then e ∷ [] else []) else []

  abbrev pub accepted_one : Act Ev → Bus Ev → List Ev
  accepted_one subscribes b = []
  accepted_one (unsubscribes p) b = []
  accepted_one (publishes e) b = []
  accepted_one (delivers i) b = taken_in (get_elem? b.pending i) b.queue

  abbrev pub accepted : List (Act Ev) → Bus Ev → List Ev
  accepted [] b = []
  accepted (a ∷ rest) b = accepted_one a b ++ accepted rest (act a b)

  put_pending-queue :
      (o : Option (Ev × ℕ)) (b : Bus Ev)
      → (put_pending o b).queue q ≡ b.queue q ++ taken_in o b.queue
  unfolding put_nowait
  put_pending-queue none b = simp append-nil
  put_pending-queue (some (e, p)) b = elim (Bool-cases (p == q)) [
    | inl t ↦ let pq : p ≡ q = ground arith in ground (arith, append-nil (b.queue q))
    | inr f ↦ ground (arith, append-nil (b.queue q))
  ]

  act-queue :
      (a : Act Ev) (b : Bus Ev) → q < b.next → (act a b).queue q ≡ b.queue q ++ accepted_one a b
  unfolding act subscribe unsubscribe snapshot deliver
  act-queue subscribes b h = simp append-nil (ground arith)
  act-queue (unsubscribes p) b h = simp append-nil
  act-queue (publishes e) b h = simp append-nil
  act-queue (delivers i) b h =
      put_pending-queue (get_elem? b.pending i) (record b { pending = erase_at b.pending i })

  -- No act makes the queue longer than it may be, or takes a number back.
  put_pending-bound :
      (o : Option (Ev × ℕ)) (b : Bus Ev)
      → length (b.queue q) ≤ maxsize
      → (length ((put_pending o b).queue q) ≤ maxsize) × ((put_pending o b).next ≡ b.next)
  unfolding put_nowait
  put_pending-bound none b h = (h, refl)
  put_pending-bound (some (e, p)) b h = elim (Bool-cases (p == q)) [
    | inl t ↦ let pq : p ≡ q = ground arith in ground (arith, length-append (b.queue q) (e ∷ []))
    | inr f ↦ ground arith
  ]

  act-bound :
      (a : Act Ev) (b : Bus Ev)
      → length (b.queue q) ≤ maxsize
      → (length ((act a b).queue q) ≤ maxsize) × (b.next ≤ (act a b).next)
  unfolding act subscribe unsubscribe snapshot deliver
  act-bound subscribes b h = ground arith
  act-bound (unsubscribes p) b h = (h, omega arith)
  act-bound (publishes e) b h = (h, omega arith)
  act-bound (delivers i) b h =
      let (l, n) =
        put_pending-bound (get_elem? b.pending i) (record b { pending = erase_at b.pending i }) h in
      (l, omega (arith, n))

  -- the same for what the others do in a round
  pub acts-queue :
      (as' : List (Act Ev)) (b : Bus Ev)
      → q < b.next
      → length (b.queue q) ≤ maxsize
      → ((acts as' b).queue q ≡ b.queue q ++ accepted as' b)
        × (length ((acts as' b).queue q) ≤ maxsize)
        × (q < (acts as' b).next)
  unfolding acts
  acts-queue [] b h l = (simp append-nil, l, h)
  acts-queue (a ∷ rest) b h l =
      let (l', n) = act-bound a b l in
      let (e, l'', h') = acts-queue rest (act a b) (omega (arith, n)) l' in
      (
        e
            ∙ ap (λ xs. xs ++ accepted rest (act a b)) (act-queue a b h)
            ∙ append_assoc (b.queue q) (accepted_one a b) (accepted rest (act a b)),
        l'',
        h',
      )
