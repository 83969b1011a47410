-- ===== src/Audit/Delivered.antt =====
-- The stream of app/api.py: what becomes of an event that was put into its queue.
use dlp_server.Base.{
  ℕ, ◌≤◌, ◌≡◌, refl, sym, ap, ◌∙◌, inl, inr, false, Option, none, some, List, [], ◌∷◌, ◌++◌, length,
  filter, All-append, arith, Bool-cases,
}
use mathlib.Core.List.{append_assoc, append-nil}
use dlp_server.Audit.Event.{Event}
use dlp_server.Audit.Bus.{maxsize, Bus, acts, pop, subscribe}
use dlp_server.Audit.Stream.{Chunk, Round, Filters, passes, yielded, stream_loop, event_stream}
use dlp_server.Audit.Took.{
  AllStay, events, taken, after_rounds, accepted_in, took, IsOpen, took-conserves,
  after_rounds-IsOpen, took-append, took-front,
}

module _ {F : Type 0} (f : Filters) (q : ℕ) where
  stream_loop-stay :
      (r : Round F) (rounds : List (Round F)) (b : Bus (Event F))
      → r.gone ≡ false
      → (stream_loop f q (r ∷ rounds) b).0
        ≡ yielded f (pop q (acts r.meanwhile b)).0
          ++ (stream_loop f q rounds (pop q (acts r.meanwhile b)).1).0
  unfolding stream_loop
  stream_loop-stay r rounds b g = rw (g, stream_loop) refl

  events-yielded :
      (got : Option (Event F)) (cs : List (Chunk F))
      → events (yielded f got ++ cs) ≡ filter (passes f) (taken got) ++ events cs
  events-yielded none cs = refl
  events-yielded (some e) cs = elim (Bool-cases (passes f e)) [
    | inl t ↦ rw t refl
    | inr n ↦ rw n refl
  ]

  filter-append :
      (xs ys : List (Event F))
      → filter (passes f) (xs ++ ys) ≡ filter (passes f) xs ++ filter (passes f) ys
  filter-append [] ys = refl
  filter-append (x ∷ xs) ys = elim (Bool-cases (passes f x)) [
    | inl t ↦ rw t (ap (λ zs. x ∷ zs) (filter-append xs ys))
    | inr n ↦ rw n (filter-append xs ys)
  ]

  -- The stream sends what its rounds take and the filters let pass.
  events-stream_loop :
      (rounds : List (Round F)) (b : Bus (Event F))
      → AllStay rounds
      → events (stream_loop f q rounds b).0 ≡ filter (passes f) (took q rounds b)
  unfolding stream_loop
  events-stream_loop [] b h = refl
  events-stream_loop (r ∷ rounds) b h =
      let b1 = acts r.meanwhile b in
      let b2 = (pop q b1).1 in
      ap (λ cs. events cs) (stream_loop-stay r rounds b h.0)
      ∙ events-yielded (pop q b1).0 (stream_loop f q rounds b2).0
      ∙ ap (λ xs. filter (passes f) (taken (pop q b1).0) ++ xs) (events-stream_loop rounds b2 h.1)
      ∙ sym (filter-append (taken (pop q b1).0) (took q rounds b2))

module _ {F : Type 0} (f : Filters) where
  -- the queue of a new stream is open and empty
  subscribe-IsOpen :
      (b : Bus (Event F)) → IsOpen b.next (subscribe b) × ((subscribe b).queue b.next ≡ [])
  unfolding subscribe maxsize
  subscribe-IsOpen b = ((omega arith, ground arith), ground arith)

  -- what is taken in the end begins with what came in the first rounds
  took-accepted :
      (rounds more : List (Round F)) (b : Bus (Event F))
      → maxsize ≤ length more
      → (later : List (Event F)) × (took b.next (rounds ++ more) (subscribe b)
          ≡ accepted_in b.next rounds (subscribe b) ++ later)
  took-accepted rounds more b l =
      let q = b.next in
      let (o, empty) = subscribe-IsOpen b in
      let b1 = after_rounds q rounds (subscribe b) in
      let o1 = after_rounds-IsOpen q rounds (subscribe b) o in
      let (later, w) =
        took-front q more (b1.queue q) [] b1 o1 (sym (append-nil (b1.queue q)))
          (omega (arith, l, o1.1)) in
      (
        later,
        took-append q rounds more (subscribe b)
            ∙ ap (λ xs. took q rounds (subscribe b) ++ xs) w
            ∙ sym (append_assoc (took q rounds (subscribe b)) (b1.queue q) later)
            ∙ ap (λ xs. xs ++ later)
                (took-conserves q rounds (subscribe b) o
                  ∙ ap (λ xs. xs ++ accepted_in q rounds (subscribe b)) empty),
      )

  -- A live stream delivers: whatever the other threads do meanwhile, each event that a publisher
  -- got into the stream's queue during some rounds is sent, once and in the order of the queue, if
  -- it passes the filters, once the stream has made a thousand rounds more with the client still
  -- there; what else it sends comes later.
  pub event_stream-delivers :
      (rounds more : List (Round F)) (b : Bus (Event F))
      → AllStay rounds
      → AllStay more
      → maxsize ≤ length more
      → (later : List (Event F)) × (events (event_stream f (rounds ++ more) b).0
          ≡ filter (passes f) (accepted_in b.next rounds (subscribe b)) ++ later)
  unfolding event_stream
  event_stream-delivers rounds more b h k l =
      let (later, w) = took-accepted rounds more b l in
      (
        filter (passes f) later,
        events-stream_loop f b.next (rounds ++ more) (subscribe b)
              (All-append (λ (r : Round F). r.gone ≡ false) rounds more h k)
            ∙ ap (λ xs. filter (passes f) xs) w
            ∙ filter-append f b.next (accepted_in b.next rounds (subscribe b)) later,
      )
