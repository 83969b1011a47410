-- ===== src/Audit/Stream.antt =====
-- `_event_stream` of app/api.py: the loop of a live stream over its queue.
use dlp_server.Base.{
  ℕ, Bool, true, false, ◌&&◌, Option, none, some, List, [], ◌∷◌, ◌++◌, if◌then◌else◌,
}
use dlp_server.Base.Str.{Str, str, eq}
use dlp_server.Audit.Event.{Event}
use dlp_server.Audit.Bus.{Bus, Act, acts, pop, subscribe, unsubscribe}

-- what the stream yields
pub data Chunk (F : Type 0) : Type 0 where
  connected : Chunk F
  ping : Chunk F
  sent : Event F → Chunk F

-- One round of the loop: whether the client is gone, and what the other threads do before q.get
-- returns or its time is over.
pub record Round (F : Type 0) : Type 0 where
  pub gone : Bool
  pub meanwhile : List (Act (Event F))

-- the filters
pub record Filters : Type 0 where
  pub direction : Option Str
  pub verdict : Option Str
  pub session_id : Option Str

abbrev pub agrees : Option Str → Str → Bool
agrees none s = true
agrees (some t) s = eq s t

module _ {F : Type 0} where
  unfoldable pub passes : Filters → Event F → Bool
  passes f e =
      agrees f.direction e.direction
      && (agrees f.verdict e.verdict_action && agrees f.session_id e.session_id)

  -- the chunk of a round
  abbrev pub yielded : Filters → Option (Event F) → List (Chunk F)
  yielded f none = ping ∷ []
  yielded f (some e) = if passes f e then sent e ∷ [] else []

  -- the loop, for the rounds that are given
  unfoldable pub stream_loop :
      Filters → ℕ → List (Round F) → Bus (Event F) → List (Chunk F) × Bus (Event F)
  stream_loop f q [] b = ([], b)
  stream_loop f q (r ∷ rounds) b =
      let (got, b') = pop q (acts r.meanwhile b) in
      let (later, b'') = stream_loop f q rounds b' in
      elim r.gone [ true ↦ ([], b) | false ↦ (yielded f got ++ later, b'') ]

  -- `_event_stream` until the client is gone
  unfoldable pub event_stream :
      Filters → List (Round F) → Bus (Event F) → List (Chunk F) × Bus (Event F)
  event_stream f rounds b =
      let (chunks, b') = stream_loop f b.next rounds (subscribe b) in
      (connected ∷ chunks, unsubscribe b.next b')

  -- the text of a chunk, with json.dumps for the event
  unfoldable pub frame : (Event F → Str) → (ℕ → Str) → Chunk F → Str
  frame dumps print connected = str ": connected\n\n"
  frame dumps print ping = str ": ping\n\n"
  frame dumps print (sent e) =
      str "id: " ++ (print e.event_id ++ (str "\ndata: " ++ (dumps e ++ str "\n\n")))
