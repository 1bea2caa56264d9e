-- ===== src/Protocol/Serve/Invariant.antt =====
-- Where each accepted connection of `Serve` is, in every state and at the end.
use peerstore.Base.{
  ℕ, ◌+◌, ◌≤◌, ◌≡◌, refl, sym, subst, ap, zero, suc, Option, none, some, List, [], ◌∷◌, ◌++◌,
  length, length-append, replicate, All, nat_eq, arith,
}
use peerstore.Protocol.Serve.{
  Conn, Worker, idle, handling, asking, ended, Phase, accepting, stopping, done, Serving, count,
  HasEnded, Step, accept, send, hand_over, take, dial, answered, finish, quit, stop, finale, here,
  next, Reachable, held, in_work, waiting,
}

count-append : (c : Conn) (xs ys : List Conn) → count c (xs ++ ys) ≡ count c xs + count c ys
unfolding count
count-append c [] ys = omega arith
count-append c (x ∷ xs) ys = omega (arith, count-append c xs ys)

-- How often the workers have this connection
abbrev worked : Conn → List Worker → ℕ
worked c ws = count c (in_work ws)

worked-append :
    (c : Conn) (before : List Worker) (w : Worker) (rest : List Worker)
    → worked c (before ++ w ∷ rest) ≡ worked c before + count c (held w) + worked c rest
unfolding in_work count
worked-append c [] w rest = omega (arith, count-append c (held w) (in_work rest))
worked-append c (x ∷ before) w rest = omega (
  arith,
  count-append c (held x) (in_work (before ++ w ∷ rest)),
  count-append c (held x) (in_work before),
  worked-append c before w rest,
)

-- Each accepted connection is with the loop, in the channel, or begun; each begun one is with a worker or finished.
abbrev Kept : Conn → Serving → Type 0
Kept c s =
    (count c s.accepted ≡ count c (waiting s.pending) + count c s.queue + count c s.begun)
    × (count c s.begun ≡ worked c s.workers + count c s.finished)

-- One worker changes, from `v` to `w`.
worked-change :
    (c : Conn) (s : Serving) (before : List Worker) (v w : Worker) (rest : List Worker)
    → s.workers ≡ before ++ v ∷ rest
    → worked c (before ++ w ∷ rest) + count c (held v) ≡ worked c s.workers + count c (held w)
worked-change c s before v w rest e =
    rw e (omega (arith, worked-append c before v rest, worked-append c before w rest))

pending_count :
    (c : Conn) (s : Serving) (o : Option Conn)
    → s.pending ≡ o
    → count c (waiting s.pending) ≡ count c (waiting o)
pending_count c s o e = ap (λ x. count c (waiting x)) e

Step-Kept : {buffer : ℕ} {s t : Serving} → Step buffer s t → (c : Conn) → Kept c s → Kept c t
unfolding count
Step-Kept {s = s} (accept d p e) c k = omega (arith, k, pending_count c s none e)
Step-Kept {s = s} (send d e l) c k =
    omega (arith, k, pending_count c s (some d) e, count-append c s.queue (d ∷ []))
Step-Kept {s = s} (hand_over d before rest e q w) c k =
    omega
      (arith, k, pending_count c s (some d) e, worked-change c s before idle (handling d) rest w)
Step-Kept {s = s} (take d queue before rest q w) c k =
    omega (arith, k, ap (count c) q, worked-change c s before idle (handling d) rest w)
Step-Kept {s = s} (dial d e before rest w n) c k =
    omega (arith, k, worked-change c s before (handling d) (asking d e) rest w)
Step-Kept {s = s} (answered d e before rest w n) c k =
    omega (arith, k, worked-change c s before (asking d e) (handling d) rest w)
Step-Kept {s = s} (finish d before rest w) c k =
    omega (arith, k, worked-change c s before (handling d) idle rest w)
Step-Kept (quit p e) c k = k
Step-Kept {s = s} (stop before rest p h w) c k =
    omega (arith, k, worked-change c s before idle ended rest w)
Step-Kept (finale p h) c k = k

-- After the quit signal nothing is pending, and at the end every worker has returned.
abbrev Orderly : Phase → Option Conn → List Worker → Type 0
Orderly accepting p ws = Unit
Orderly stopping p ws = p ≡ none
Orderly done p ws = (p ≡ none) × All HasEnded ws

ended_at :
    (before : List Worker) (v : Worker) (rest : List Worker)
    → All HasEnded (before ++ v ∷ rest)
    → HasEnded v
ended_at [] v rest h = h.0
ended_at (x ∷ before) v rest h = ended_at before v rest h.1

moved-Orderly :
    (phase : Phase) (p q : Option Conn) (ws us before : List Worker) (v : Worker)
    (rest : List Worker)
    → ws ≡ before ++ v ∷ rest
    → ¬ (HasEnded v)
    → (p ≡ none → q ≡ none)
    → Orderly phase p ws
    → Orderly phase q us
moved-Orderly accepting p q ws us before v rest e n f o = tt
moved-Orderly stopping p q ws us before v rest e n f o = f o
moved-Orderly done p q ws us before v rest e n f (o, h) =
    absurd (n (ended_at before v rest (subst (All HasEnded) e h)))

sent-Orderly :
    (phase : Phase) (p : Option Conn) (ws : List Worker)
    → Orderly phase p ws
    → Orderly phase none ws
sent-Orderly accepting p ws o = tt
sent-Orderly stopping p ws o = refl
sent-Orderly done p ws (o, h) = (refl, h)

abbrev IsOrderly : Serving → Type 0
IsOrderly s = Orderly s.phase s.pending s.workers

Step-Orderly : {buffer : ℕ} {s t : Serving} → Step buffer s t → IsOrderly s → IsOrderly t
Step-Orderly {s = s} (accept d p e) o = subst (λ x. Orderly x (some d) s.workers) (sym p) tt
Step-Orderly {s = s} (send d e l) o = sent-Orderly s.phase s.pending s.workers o
Step-Orderly {s = s} (hand_over d before rest e q w) o =
    moved-Orderly s.phase s.pending none s.workers _ before idle rest w (λ h. absurd cc) (λ h. refl)
      o
Step-Orderly {s = s} (take d queue before rest q w) o =
    moved-Orderly s.phase s.pending s.pending s.workers _ before idle rest w (λ h. absurd cc)
      (λ h. h) o
Step-Orderly {s = s} (dial d e before rest w n) o =
    moved-Orderly s.phase s.pending s.pending s.workers _ before (handling d) rest w
      (λ h. absurd cc) (λ h. h) o
Step-Orderly {s = s} (answered d e before rest w n) o =
    moved-Orderly s.phase s.pending s.pending s.workers _ before (asking d e) rest w
      (λ h. absurd cc) (λ h. h) o
Step-Orderly {s = s} (finish d before rest w) o =
    moved-Orderly s.phase s.pending s.pending s.workers _ before (handling d) rest w
      (λ h. absurd cc) (λ h. h) o
Step-Orderly (quit p e) o = e
Step-Orderly {s = s} (stop before rest p h w) o =
    moved-Orderly s.phase s.pending s.pending s.workers _ before idle rest w (λ h. absurd cc)
      (λ h. h) o
Step-Orderly {s = s} (finale p h) o = (subst (λ x. Orderly x s.pending s.workers) p o, h)

-- The buffer holds what is queued.
Step-queue :
    {buffer : ℕ} {s t : Serving}
    → Step buffer s t
    → length s.queue ≤ buffer
    → length t.queue ≤ buffer
Step-queue (accept d p e) h = h
Step-queue {s = s} (send d e l) h = omega (arith, length-append s.queue (d ∷ []))
Step-queue (hand_over d before rest e q w) h = h
Step-queue {s = s} (take d queue before rest q w) h = omega (arith, ap length q)
Step-queue (dial d e before rest w n) h = h
Step-queue (answered d e before rest w n) h = h
Step-queue (finish d before rest w) h = h
Step-queue (quit p e) h = h
Step-queue (stop before rest p h w) k = k
Step-queue (finale p h) k = k

pub record IsSound (buffer : ℕ) (s : Serving) : Type 0 where
  pub kept : (c : Conn) → Kept c s
  pub orderly : IsOrderly s
  pub bounded : length s.queue ≤ buffer

worked-start : (c : Conn) (n : ℕ) → worked c (replicate n idle) ≡ 0
unfolding in_work count
worked-start c zero = refl
worked-start c (suc n) = worked-start c n

Steps-IsSound : (buffer n : ℕ) {t : Serving} → Reachable buffer n t → IsSound buffer t
unfolding count
Steps-IsSound buffer n here = record {
  kept = λ c. omega (arith, worked-start c n);
  orderly = tt;
  bounded = omega arith;
}
Steps-IsSound buffer n (next r s) =
    let h = Steps-IsSound buffer n r in
    record {
      kept = λ c. Step-Kept s c (h.kept c);
      orderly = Step-Orderly s h.orderly;
      bounded = Step-queue s h.bounded;
    }

worked-ended : (c : Conn) (ws : List Worker) → All HasEnded ws → worked c ws ≡ 0
unfolding in_work count
worked-ended c [] h = refl
worked-ended c (w ∷ ws) (e, h) = rw e (worked-ended c ws h)

-- In every state that `Serve` reaches from its start, each connection is, as often as it was
-- accepted, in one of these places: waiting for room in the channel, in the channel, with a worker,
-- or finished; and the channel holds at most as many as its buffer.
pub each_connection_once :
    (buffer n : ℕ) {t : Serving} (c : Conn)
    → Reachable buffer n t
    → (count c t.accepted
        ≡ count c (waiting t.pending)
          + count c t.queue
          + count c (in_work t.workers)
          + count c t.finished)
      × (length t.queue ≤ buffer)
each_connection_once buffer n c r =
    let h = Steps-IsSound buffer n r in (omega (arith, h.kept c), h.bounded)

-- When `Serve` has ended, every worker has returned, and each accepted connection was finished or is still in the
-- channel, where nobody takes it.
pub queued_dropped :
    (buffer n : ℕ) {t : Serving} (c : Conn)
    → Reachable buffer n t
    → t.phase ≡ done
    → All HasEnded t.workers
      × (count c t.begun ≡ count c t.finished)
      × (count c t.accepted ≡ count c t.finished + count c t.queue)
unfolding count
queued_dropped buffer n {t = t} c r e =
    let h = Steps-IsSound buffer n r in
    let (p, all) = subst (λ x. Orderly x t.pending t.workers) e h.orderly in
    let none_left = worked-ended c t.workers all in
    (
      all,
      omega (arith, h.kept c, none_left),
      omega (arith, h.kept c, none_left, pending_count c t none p),
    )
