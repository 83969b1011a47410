-- ===== src/Audit/Took.antt =====
-- The stream of app/api.py: what its rounds take from the queue.
use dlp_server.Base.{
  ℕ, ◌<◌, ◌≤◌, ◌≡◌, refl, sym, ap, ◌∙◌, false, Option, none, some, List, [], ◌∷◌, ◌++◌, length,
  length-append, All, arith,
}
use mathlib.Core.List.{append_assoc, append-nil}
use dlp_server.Audit.Event.{Event}
use dlp_server.Audit.Bus.{maxsize, Bus, acts, popped, pop}
use dlp_server.Audit.Accepted.{accepted, acts-queue}
use dlp_server.Audit.Stream.{Chunk, connected, ping, sent, Round}

-- the client is still there in all these rounds
abbrev pub AllStay : {F : Type 0} → List (Round F) → Type 0
AllStay rounds = All (λ r. r.gone ≡ false) rounds

-- the events among the chunks
abbrev pub events : {F : Type 0} → List (Chunk F) → List (Event F)
events [] = []
events (connected ∷ cs) = events cs
events (ping ∷ cs) = events cs
events (sent e ∷ cs) = e ∷ events cs

-- the event that a round takes from the queue
abbrev pub taken : {F : Type 0} → Option (Event F) → List (Event F)
taken none = []
taken (some e) = e ∷ []

module _ {F : Type 0} (q : ℕ) where
  -- the bus after the rounds, and what the others put into the queue during them
  abbrev pub after_rounds : List (Round F) → Bus (Event F) → Bus (Event F)
  after_rounds [] b = b
  after_rounds (r ∷ rounds) b = after_rounds rounds (pop q (acts r.meanwhile b)).1

  abbrev pub accepted_in : List (Round F) → Bus (Event F) → List (Event F)
  accepted_in [] b = []
  accepted_in (r ∷ rounds) b =
      accepted q r.meanwhile b ++ accepted_in rounds (pop q (acts r.meanwhile b)).1

  -- the events that the rounds take from the queue
  abbrev pub took : List (Round F) → Bus (Event F) → List (Event F)
  took [] b = []
  took (r ∷ rounds) b =
      taken (pop q (acts r.meanwhile b)).0 ++ took rounds (pop q (acts r.meanwhile b)).1

  popped-queue :
      (xs : List (Event F)) (b : Bus (Event F))
      → b.queue q ≡ xs
      → (taken (popped q xs b).0 ++ (popped q xs b).1.queue q ≡ xs)
        × ((popped q xs b).1.next ≡ b.next)
  popped-queue [] b e = (e, refl)
  popped-queue (x ∷ xs) b e = (ground arith, refl)

  pop-queue :
      (b : Bus (Event F))
      → (taken (pop q b).0 ++ (pop q b).1.queue q ≡ b.queue q) × ((pop q b).1.next ≡ b.next)
  unfolding pop
  pop-queue b = popped-queue (b.queue q) b refl

  -- the queue of a stream that is subscribed, before a round
  abbrev pub IsOpen : Bus (Event F) → Type 0
  IsOpen b = (q < b.next) × (length (b.queue q) ≤ maxsize)

  round-IsOpen :
      (r : Round F) (b : Bus (Event F)) → IsOpen b → IsOpen (pop q (acts r.meanwhile b)).1
  round-IsOpen r b (h, l) =
      let (e, l', h') = acts-queue q r.meanwhile b h l in
      let (t, n) = pop-queue (acts r.meanwhile b) in
      let len = ap (λ xs. length xs) t in
      (
        omega (arith, n),
        omega (
          arith,
          length-append (taken (pop q (acts r.meanwhile b)).0)
              ((pop q (acts r.meanwhile b)).1.queue q),
        ),
      )

  -- What was taken and what is left are what was there and what came, in the same order.
  pub took-conserves :
      (rounds : List (Round F)) (b : Bus (Event F))
      → IsOpen b
      → took rounds b ++ (after_rounds rounds b).queue q ≡ b.queue q ++ accepted_in rounds b
  took-conserves [] b o = simp append-nil
  took-conserves (r ∷ rounds) b (h, l) =
      let b1 = acts r.meanwhile b in
      let b2 = (pop q b1).1 in
      let (e, l', h') = acts-queue q r.meanwhile b h l in
      let (t, n) = pop-queue b1 in
      append_assoc (taken (pop q b1).0) (took rounds b2) ((after_rounds rounds b2).queue q)
      ∙ ap (λ xs. taken (pop q b1).0 ++ xs) (took-conserves rounds b2 (round-IsOpen r b (h, l)))
      ∙ sym (append_assoc (taken (pop q b1).0) (b2.queue q) (accepted_in rounds b2))
      ∙ ap (λ xs. xs ++ accepted_in rounds b2) (t ∙ e)
      ∙ append_assoc (b.queue q) (accepted q r.meanwhile b) (accepted_in rounds b2)

  pub after_rounds-IsOpen :
      (rounds : List (Round F)) (b : Bus (Event F)) → IsOpen b → IsOpen (after_rounds rounds b)
  after_rounds-IsOpen [] b o = o
  after_rounds-IsOpen (r ∷ rounds) b o =
      after_rounds-IsOpen rounds (pop q (acts r.meanwhile b)).1 (round-IsOpen r b o)

  pub took-append :
      (rounds more : List (Round F)) (b : Bus (Event F))
      → took (rounds ++ more) b ≡ took rounds b ++ took more (after_rounds rounds b)
  took-append [] more b = refl
  took-append (r ∷ rounds) more b =
      let b1 = acts r.meanwhile b in
      let b2 = (pop q b1).1 in
      ap (λ xs. taken (pop q b1).0 ++ xs) (took-append rounds more b2)
      ∙ sym
          (append_assoc (taken (pop q b1).0) (took rounds b2) (took more (after_rounds rounds b2)))

  -- an event at the front is the one that is taken
  pop-front :
      (x : Event F) (xs : List (Event F)) (b : Bus (Event F))
      → b.queue q ≡ x ∷ xs
      → (taken (pop q b).0 ≡ x ∷ []) × ((pop q b).1.queue q ≡ xs)
  unfolding pop
  pop-front x xs b e = rw e (refl, ground arith)

  -- Each round takes one event, so a front part of the queue is taken in as many rounds.
  pub took-front :
      (rounds : List (Round F)) (front back : List (Event F)) (b : Bus (Event F))
      → IsOpen b
      → b.queue q ≡ front ++ back
      → length front ≤ length rounds
      → (later : List (Event F)) × (took rounds b ≡ front ++ later)
  took-front rounds [] back b o e l = (took rounds b, refl)
  took-front [] (x ∷ front) back b o e l = absurd (omega (arith, l))
  took-front (r ∷ rounds) (x ∷ front) back b o e l =
      let b1 = acts r.meanwhile b in
      let (k, l', h') = acts-queue q r.meanwhile b o.0 o.1 in
      let (t, u) =
        pop-front x ((front ++ back) ++ accepted q r.meanwhile b) b1
          (k ∙ ap (λ xs. xs ++ accepted q r.meanwhile b) e) in
      let (later, w) =
        took-front rounds front (back ++ accepted q r.meanwhile b) (pop q b1).1 (round-IsOpen r b o)
          (u ∙ append_assoc front back (accepted q r.meanwhile b)) (omega (arith, l)) in
      (later, rw t (ap (λ xs. x ∷ xs) w))
