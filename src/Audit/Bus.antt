-- ===== src/Audit/Bus.antt =====
-- app/logging/bus.py: the queues of the subscribers. Publishers run in threads of their own, so
-- what the others do between two steps of a reader is a list of acts.
use dlp_server.Base.{
  ℕ, zero, suc, ◌==◌, ltb, Option, none, some, List, [], ◌∷◌, ◌++◌, map, length, if◌then◌else◌,
}

-- _SUBSCRIBER_MAXSIZE
unfoldable pub maxsize : ℕ
maxsize = 1000

-- A queue is known by its number. `pending` holds the puts that publishers have still to make: a
-- publisher copies the list of subscribers under the lock, and puts without it.
pub record Bus (Ev : Type 0) : Type 0 where
  pub subscribers : List ℕ
  pub queue : ℕ → List Ev
  pub next : ℕ
  pub pending : List (Ev × ℕ)

-- the queues, with another content for one of them
abbrev pub update {ℓ} : {A : Type ℓ} → (ℕ → A) → ℕ → A → ℕ → A
update f k v j = if j == k then v else f j

-- xs.remove(x), where `x in xs`
unfoldable pub remove : ℕ → List ℕ → List ℕ
remove q [] = []
remove q (p ∷ ps) = let rest = remove q ps in if p == q then ps else p ∷ rest

-- the element at a place, and the list without it
abbrev pub get_elem? {ℓ} : {A : Type ℓ} → List A → ℕ → Option A
get_elem? [] i = none
get_elem? (x ∷ xs) zero = some x
get_elem? (x ∷ xs) (suc i) = get_elem? xs i

abbrev pub erase_at {ℓ} : {A : Type ℓ} → List A → ℕ → List A
erase_at [] i = []
erase_at (x ∷ xs) zero = xs
erase_at (x ∷ xs) (suc i) = x ∷ erase_at xs i

pub data Act (Ev : Type 0) : Type 0 where
  subscribes : Act Ev
  unsubscribes : ℕ → Act Ev
  publishes : Ev → Act Ev
  delivers : ℕ → Act Ev

module _ (Ev : Type 0) where
  abbrev pub empty_bus : Bus Ev
  empty_bus = record { subscribers = []; queue = λ q. []; next = 0; pending = [] }

module _ {Ev : Type 0} where
  -- the number of the new queue is `b.next`
  unfoldable pub subscribe : Bus Ev → Bus Ev
  subscribe b = record b {
    subscribers = b.subscribers ++ b.next ∷ [];
    queue = update b.queue b.next [];
    next = suc b.next;
  }

  unfoldable pub unsubscribe : ℕ → Bus Ev → Bus Ev
  unsubscribe q b = record b { subscribers = remove q b.subscribers }

  -- put_nowait; a full queue loses the event
  unfoldable pub put_nowait : ℕ → Ev → Bus Ev → Bus Ev
  put_nowait q e b =
      if ltb (length (b.queue q)) maxsize
      then record b { queue = update b.queue q (b.queue q ++ e ∷ []) }
      else b

  -- the copy that `publish` takes
  unfoldable pub snapshot : Ev → Bus Ev → Bus Ev
  snapshot e b = record b { pending = b.pending ++ map (λ q. (e, q)) b.subscribers }

  -- the put of a publisher, whichever comes next
  abbrev pub put_pending : Option (Ev × ℕ) → Bus Ev → Bus Ev
  put_pending none b = b
  put_pending (some (e, q)) b = put_nowait q e b

  unfoldable pub deliver : ℕ → Bus Ev → Bus Ev
  deliver i b = put_pending (get_elem? b.pending i) (record b { pending = erase_at b.pending i })

  unfoldable pub act : Act Ev → Bus Ev → Bus Ev
  act subscribes b = subscribe b
  act (unsubscribes q) b = unsubscribe q b
  act (publishes e) b = snapshot e b
  act (delivers i) b = deliver i b

  unfoldable pub acts : List (Act Ev) → Bus Ev → Bus Ev
  acts [] b = b
  acts (a ∷ rest) b = acts rest (act a b)

  -- q.get: the oldest event, and the queue without it
  abbrev pub popped : ℕ → List Ev → Bus Ev → Option Ev × Bus Ev
  popped q [] b = (none, b)
  popped q (e ∷ rest) b = (some e, record b { queue = update b.queue q rest })

  unfoldable pub pop : ℕ → Bus Ev → Option Ev × Bus Ev
  pop q b = popped q (b.queue q) b

  -- `publish` when nobody comes in between: the puts in the order of the subscribers
  unfoldable pub put_all : List ℕ → Ev → Bus Ev → Bus Ev
  put_all [] e b = b
  put_all (q ∷ qs) e b = put_all qs e (put_nowait q e b)

  unfoldable pub publish : Ev → Bus Ev → Bus Ev
  publish e b = put_all b.subscribers e b
