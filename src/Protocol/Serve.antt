-- ===== src/Protocol/Serve.antt =====
-- `startWorkers` and `Serve` of protocol/server.go as a step relation: the loop that accepts connections, the
-- channel `connChan`, and the workers, interleaved in any order. A failed accept, and a panic in a handler, end the
-- process and are no step.
pub mod Invariant
pub mod Deadlock
pub mod Shutdown
use peerstore.Base.{
  ℕ, ◌<◌, ◌≡◌, Option, none, some, List, [], ◌∷◌, ◌++◌, length, replicate, All, if◌then◌else◌, ◌==◌,
  nat_eq, ◌+◌,
}

-- An accepted connection, by its number
abbrev pub Conn : Type 0
Conn = ℕ

pub data Worker : Type 0 where
  idle : Worker
  -- In `handleConnection` of this connection
  handling : Conn → Worker
  -- There too, and waiting for an answer on the connection that it dialled to its own server
  asking : Conn → Conn → Worker
  -- Returned, after `done <- true`
  ended : Worker

pub data Phase : Type 0 where
  accepting stopping done : Phase

pub record Serving : Type 0 where
  pub phase : Phase
  -- Accepted, and not yet sent on the channel
  pub pending : Option Conn
  pub queue : List Conn
  pub workers : List Worker
  -- All connections that were accepted, that workers took, and that they finished
  pub accepted : List Conn
  pub begun : List Conn
  pub finished : List Conn

unfoldable pub count : Conn → List Conn → ℕ
count c [] = 0
count c (d ∷ ds) = (if c == d then 1 else 0) + count c ds

abbrev pub HasEnded : Worker → Type 0
HasEnded w = w ≡ ended

abbrev pub start : ℕ → Serving
start workers = record {
  phase = accepting;
  pending = none;
  queue = [];
  workers = replicate workers idle;
  accepted = [];
  begun = [];
  finished = [];
}

pub data Step (buffer : ℕ) (s : Serving) : Serving → Type 0 where
  -- `listener.Accept()`: the loop is back only when the connection before was sent.
  accept :
      (c : Conn)
      → s.phase ≡ accepting
      → s.pending ≡ none
      → Step buffer s (record s { pending = some c; accepted = c ∷ s.accepted })
  -- `s.connChan <- conn` into the buffer
  send :
      (c : Conn)
      → s.pending ≡ some c
      → length s.queue < buffer
      → Step buffer s (record s { pending = none; queue = s.queue ++ c ∷ [] })
  -- The same to a worker that waits, which is the only way without a buffer
  hand_over :
      (c : Conn) (before rest : List Worker)
      → s.pending ≡ some c
      → s.queue ≡ []
      → s.workers ≡ before ++ idle ∷ rest
      → Step buffer s
          (record s { pending = none; workers = before ++ handling c ∷ rest; begun = c ∷ s.begun })
  -- `conn := <-s.connChan`
  take :
      (c : Conn) (queue : List Conn) (before rest : List Worker)
      → s.queue ≡ c ∷ queue
      → s.workers ≡ before ++ idle ∷ rest
      → Step buffer s
          (record s { queue = queue; workers = before ++ handling c ∷ rest; begun = c ∷ s.begun })
  -- A request of a user: a new connection to the server's own address
  dial :
      (c d : Conn) (before rest : List Worker)
      → s.workers ≡ before ++ handling c ∷ rest
      → count d s.begun ≡ 0
      → Step buffer s (record s { workers = before ++ asking c d ∷ rest })
  -- The answer, or the end, of that connection: a worker must have taken it.
  answered :
      (c d : Conn) (before rest : List Worker)
      → s.workers ≡ before ++ asking c d ∷ rest
      → 0 < count d s.begun
      → Step buffer s (record s { workers = before ++ handling c ∷ rest })
  -- `handleConnection` returns.
  finish :
      (c : Conn) (before rest : List Worker)
      → s.workers ≡ before ++ handling c ∷ rest
      → Step buffer s (record s { workers = before ++ idle ∷ rest; finished = c ∷ s.finished })
  -- `<-q`, which the loop looks at only before it accepts
  quit : s.phase ≡ accepting → s.pending ≡ none → Step buffer s (record s { phase = stopping })
  -- `qChan <- true`: the workers in their order, each when it waits
  stop :
      (before rest : List Worker)
      → s.phase ≡ stopping
      → All HasEnded before
      → s.workers ≡ before ++ idle ∷ rest
      → Step buffer s (record s { workers = before ++ ended ∷ rest })
  -- `done <- true`, once every worker has sent its own
  finale : s.phase ≡ stopping → All HasEnded s.workers → Step buffer s (record s { phase = done })

pub data Steps (buffer : ℕ) (s : Serving) : Serving → Type 0 where
  here : Steps buffer s s
  next : {t u : Serving} → Steps buffer s t → Step buffer t u → Steps buffer s u

-- From the start of `Serve` with this many workers
abbrev pub Reachable : ℕ → ℕ → Serving → Type 0
Reachable buffer workers t = Steps buffer (start workers) t

-- The connection that a worker has
abbrev pub held : Worker → List Conn
held idle = []
held (handling c) = c ∷ []
held (asking c d) = c ∷ []
held ended = []

unfoldable pub in_work : List Worker → List Conn
in_work [] = []
in_work (w ∷ ws) = held w ++ in_work ws

abbrev pub waiting : Option Conn → List Conn
waiting none = []
waiting (some c) = c ∷ []
