-- ===== src/Tests/Serve.antt =====
-- The theorems of Protocol.Serve at one or two workers.
use peerstore.Base.{◌+◌, ◌≤◌, ◌≡◌, ◌≢◌, refl, none, some, [], ◌∷◌, length, All, arith}
use peerstore.Protocol.Serve.{
  asking, ended, accepting, done, Serving, count, HasEnded, accept, send, hand_over, finish, quit,
  stop, finale, here, next, Reachable, in_work, waiting,
}
use peerstore.Protocol.Serve.Invariant.{each_connection_once}
use peerstore.Protocol.Serve.{Steps, stopping, handling}
use peerstore.Protocol.Serve.{idle}
use peerstore.Protocol.Serve.Shutdown.{shutdown_possible}
use peerstore.Protocol.Serve.Deadlock.{Waits, waiting_stays, deadlock_reachable}

-- One worker, with room for one connection: it takes the first, and the second stays queued when the server stops.
abbrev last : Serving
last = record {
  phase = done;
  pending = none;
  queue = 8 ∷ [];
  workers = ended ∷ [];
  accepted = 8 ∷ 7 ∷ [];
  begun = 7 ∷ [];
  finished = 7 ∷ [];
}

last-Reachable : Reachable 1 1 last
last-Reachable =
    let r1 = next here (accept 7 refl refl) in
    let r2 = next r1 (hand_over 7 [] [] refl refl refl) in
    let r3 = next r2 (accept 8 refl refl) in
    let r4 = next r3 (send 8 refl (omega arith)) in
    let r5 = next r4 (quit refl refl) in
    let r6 = next r5 (finish 7 [] [] refl) in
    let r7 = next r6 (stop [] [] refl tt refl) in next r7 (finale refl (refl, tt))

each_connection_once_example :
    (count 8 last.accepted
      ≡ count 8 (waiting last.pending)
        + count 8 last.queue
        + count 8 (in_work last.workers)
        + count 8 last.finished)
    × (length last.queue ≤ 1)
each_connection_once_example = each_connection_once 1 1 8 last-Reachable

-- The only worker waits for connection 1, which is about to be accepted.
abbrev stalled : Serving
stalled = record {
  phase = accepting;
  pending = none;
  queue = [];
  workers = asking 0 1 ∷ [];
  accepted = 0 ∷ [];
  begun = 0 ∷ [];
  finished = [];
}

abbrev still_stalled : Serving
still_stalled = record stalled { pending = some 1; accepted = 1 ∷ 0 ∷ [] }

waiting_stays_example :
    (still_stalled.workers ≡ stalled.workers)
    × (still_stalled.begun ≡ stalled.begun)
    × (still_stalled.finished ≡ stalled.finished)
    × (still_stalled.phase ≢ done)
unfolding count
waiting_stays_example =
    waiting_stays 4 {s = stalled} (next here (accept 1 refl refl)) (refl, tt) (omega arith)
      (λ e. absurd cc)

deadlock_reachable_example :
    (t : Serving) × Reachable 3 2 t
    × All (Waits t.begun) t.workers
    × (length t.workers ≡ 2)
    × (t.phase ≡ accepting)
deadlock_reachable_example = deadlock_reachable 3 2

-- Two workers, one of which has a connection, and one that is queued
abbrev closing : Serving
closing = record {
  phase = stopping;
  pending = none;
  queue = 8 ∷ [];
  workers = handling 7 ∷ idle ∷ [];
  accepted = 8 ∷ 7 ∷ [];
  begun = 7 ∷ [];
  finished = [];
}

shutdown_possible_example :
    (t : Serving) × Steps 1 closing t × (t.phase ≡ done) × All HasEnded t.workers
shutdown_possible_example = shutdown_possible 1 closing refl (tt, (tt, tt))
