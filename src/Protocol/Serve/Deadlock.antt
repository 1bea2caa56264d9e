-- ===== src/Protocol/Serve/Deadlock.antt =====
-- A user's request occupies a worker that dials its own server, and waits for another worker to answer.
use peerstore.Base.{
  ℕ, zero, suc, ◌+◌, ◌<◌, ◌≡◌, ◌≢◌, refl, sym, subst, ap, ◌∙◌, none, List, [], ◌∷◌, ◌++◌,
  append-nil, length, replicate, All, ◌==◌, nat_eq, false, arith,
}
use peerstore.Protocol.Serve.{
  Conn, Worker, idle, handling, asking, ended, accepting, done, Serving, count, HasEnded, start,
  Step, accept, send, hand_over, take, dial, answered, finish, quit, stop, finale, Steps, here,
  next, Reachable,
}

-- A worker whose own connection no worker has taken
abbrev pub Waits : List Conn → Worker → Type 0
Waits begun idle = ⊥
Waits begun (handling c) = ⊥
Waits begun (asking c d) = count d begun ≡ 0
Waits begun ended = ⊥

all_at :
    (P : Worker → Type 0) (before : List Worker) (v : Worker) (rest : List Worker)
    {ws : List Worker}
    → ws ≡ before ++ v ∷ rest
    → All P ws
    → P v
all_at P before v rest e h = go before (subst (All P) e h)
  where
    go : (b : List Worker) → All P (b ++ v ∷ rest) → P v
    go [] h = h.0
    go (x ∷ b) h = go b h.1

-- What a step leaves alone: the workers, what they took and finished, and that `Serve` has not ended
record Same (s t : Serving) : Type 0 where
  workers : t.workers ≡ s.workers
  begun : t.begun ≡ s.begun
  finished : t.finished ≡ s.finished
  running : t.phase ≢ done

Step-Same :
    {buffer : ℕ} {s t : Serving}
    → Step buffer s t
    → All (Waits s.begun) s.workers
    → 0 < length s.workers
    → s.phase ≢ done
    → Same s t
Step-Same (accept c p e) h l n = record {
  workers = refl;
  begun = refl;
  finished = refl;
  running = n;
}
Step-Same (send c e r) h l n = record { workers = refl; begun = refl; finished = refl; running = n }
Step-Same {s = s} (hand_over c before rest e q w) h l n =
    absurd (all_at (Waits s.begun) before idle rest w h)
Step-Same {s = s} (take c queue before rest q w) h l n =
    absurd (all_at (Waits s.begun) before idle rest w h)
Step-Same {s = s} (dial c d before rest w f) h l n =
    absurd (all_at (Waits s.begun) before (handling c) rest w h)
Step-Same {s = s} (answered c d before rest w f) h l n =
    let none_begun = all_at (Waits s.begun) before (asking c d) rest w h in
    let bad : ⊥ = omega arith in absurd bad
Step-Same {s = s} (finish c before rest w) h l n =
    absurd (all_at (Waits s.begun) before (handling c) rest w h)
Step-Same (quit p e) h l n = record {
  workers = refl;
  begun = refl;
  finished = refl;
  running = λ x. absurd cc;
}
Step-Same {s = s} (stop before rest p a w) h l n =
    absurd (all_at (Waits s.begun) before idle rest w h)
Step-Same {s = s} (finale p a) h l n = absurd (both s.workers h a l)
  where
    both : (ws : List Worker) → All (Waits s.begun) ws → All HasEnded ws → 0 < length ws → ⊥
    both [] h a l = omega arith
    both (w ∷ ws) h a l = subst (Waits s.begun) a.0 h.0

-- Once `Serve` has not ended and every worker, of at least one, waits for an answer on a connection
-- to its own server that no worker has taken, this stays so, in whatever order the rest goes on: no
-- worker takes or finishes a connection, and `Serve` does not end, also after the quit signal.
pub waiting_stays :
    (buffer : ℕ) {s t : Serving}
    → Steps buffer s t
    → All (Waits s.begun) s.workers
    → 0 < length s.workers
    → s.phase ≢ done
    → (t.workers ≡ s.workers) × (t.begun ≡ s.begun) × (t.finished ≡ s.finished) × (t.phase ≢ done)
waiting_stays buffer here h l n = (refl, refl, refl, n)
waiting_stays buffer {s = s} (next {t = t} r step) h l n =
    let (w, b, f, m) = waiting_stays buffer r h l n in
    let waits : All (Waits t.begun) t.workers = rw (w, b) h in
    let some_left : 0 < length t.workers = rw w l in
    let same = Step-Same step waits some_left m in
    (same.workers ∙ w, same.begun ∙ b, same.finished ∙ f, same.running)

-- `k` workers that have a user's connection each, the even numbers, and dialled the odd ones
askers : ℕ → List Worker
askers zero = []
askers (suc k) = asking (k + k) (suc (k + k)) ∷ askers k

taken : ℕ → List Conn
taken zero = []
taken (suc k) = (k + k) ∷ taken k

partly : ℕ → ℕ → Serving
partly k m = record {
  phase = accepting;
  pending = none;
  queue = [];
  workers = replicate m idle ++ askers k;
  accepted = taken k;
  begun = taken k;
  finished = [];
}

count-taken : (j k : ℕ) → count (suc (j + j)) (taken k) ≡ 0
unfolding count taken
count-taken j zero = refl
count-taken j (suc k) =
    let odd : (suc (j + j) == (k + k)) ≡ false = ground arith in
    rw odd (omega (arith, count-taken j k))

askers-Waits : (n k : ℕ) → All (Waits (taken n)) (askers k)
unfolding askers
askers-Waits n zero = tt
askers-Waits n (suc k) = (count-taken k n, askers-Waits n k)

replicate-append :
    (m : ℕ) (ws : List Worker) → replicate (suc m) idle ++ ws ≡ replicate m idle ++ idle ∷ ws
replicate-append zero ws = refl
replicate-append (suc m) ws = ap (λ xs. idle ∷ xs) (replicate-append m ws)

-- One more user's connection: it is accepted, handed to a worker that waits, and the worker dials.
one_more :
    (buffer n k m : ℕ)
    → Reachable buffer n (partly k (suc m))
    → Reachable buffer n (partly (suc k) m)
unfolding partly askers taken
one_more buffer n k m r =
    let before = replicate m idle in
    next
      (next (next r (accept (k + k) refl refl))
        (hand_over (k + k) before (askers k) refl refl (replicate-append m (askers k))))
      (dial (k + k) (suc (k + k)) before (askers k) refl (count-taken k (suc k)))

partly-start : (m : ℕ) → start m ≡ partly zero m
unfolding partly askers taken
partly-start m = ap (λ ws. record (start m) { workers = ws }) (sym (append-nil (replicate m idle)))

partly-Reachable : (buffer n k m : ℕ) → k + m ≡ n → Reachable buffer n (partly k m)
partly-Reachable buffer n zero m e =
    let all : m ≡ n = omega arith in
    subst (Reachable buffer n) (partly-start m) (subst (λ x. Reachable buffer x (start m)) all here)
partly-Reachable buffer n (suc k) m e =
    one_more buffer n k m (partly-Reachable buffer n k (suc m) (omega arith))

length-askers : (k : ℕ) → length (askers k) ≡ k
unfolding askers
length-askers zero = refl
length-askers (suc k) = ap suc (length-askers k)

-- With any buffer and any number of workers, a run from the start of `Serve` in which as many users connect leads to
-- a state where every worker waits for an answer on a connection to its own server that no worker has taken.
pub deadlock_reachable :
    (buffer n : ℕ)
    → (t : Serving) × Reachable buffer n t
      × All (Waits t.begun) t.workers
      × (length t.workers ≡ n)
      × (t.phase ≡ accepting)
unfolding partly
deadlock_reachable buffer n = (
  partly n zero,
  partly-Reachable buffer n n zero (omega arith),
  askers-Waits n n,
  length-askers n,
  refl,
)
