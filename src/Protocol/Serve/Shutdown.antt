-- ===== src/Protocol/Serve/Shutdown.antt =====
-- How `Serve` ends after the quit signal.
use peerstore.Base.{
  ℕ, ◌≡◌, refl, sym, ◌∙◌, List, [], ◌∷◌, ◌++◌, append-nil, append_assoc, All, subst,
}
use peerstore.Protocol.Serve.{
  Worker, idle, handling, asking, ended, stopping, done, Serving, HasEnded, finish, stop, finale,
  Steps, here, next,
}

-- A worker that waits for no other worker
abbrev pub IsQuiet : Worker → Type 0
IsQuiet idle = Unit
IsQuiet (handling c) = Unit
IsQuiet (asking c d) = ⊥
IsQuiet ended = Unit

Steps-append :
    {buffer : ℕ} {s t u : Serving} → Steps buffer s t → Steps buffer t u → Steps buffer s u
Steps-append r here = r
Steps-append r (next q step) = next (Steps-append r q) step

All-snoc : (before : List Worker) → All HasEnded before → All HasEnded (before ++ ended ∷ [])
All-snoc [] h = (refl, tt)
All-snoc (w ∷ before) (h, hs) = (h, All-snoc before hs)

-- The workers from here on finish what they have and return, one after the other.
stopped_from :
    (buffer : ℕ) (s : Serving) (before rest : List Worker)
    → s.phase ≡ stopping
    → s.workers ≡ before ++ rest
    → All HasEnded before
    → All IsQuiet rest
    → (t : Serving) × Steps buffer s t × (t.phase ≡ stopping) × All HasEnded t.workers
stopped_from buffer s before [] p w h q =
    (s, here, p, subst (All HasEnded) (sym (w ∙ append-nil before)) h)
stopped_from buffer s before (idle ∷ rest) p w h (_, q) =
    let s' : Serving = record s { workers = before ++ ended ∷ rest } in
    let (t, r, e, all) =
      stopped_from buffer s' (before ++ ended ∷ []) rest p
        (sym (append_assoc before (ended ∷ []) rest)) (All-snoc before h) q in
    (t, Steps-append (next here (stop before rest p h w)) r, e, all)
stopped_from buffer s before (handling c ∷ rest) p w h (_, q) =
    let free : Serving = record s { workers = before ++ idle ∷ rest; finished = c ∷ s.finished } in
    let s' : Serving = record free { workers = before ++ ended ∷ rest } in
    let (t, r, e, all) =
      stopped_from buffer s' (before ++ ended ∷ []) rest p
        (sym (append_assoc before (ended ∷ []) rest)) (All-snoc before h) q in
    (
      t,
      Steps-append (next (next here (finish c before rest w)) (stop before rest p h refl)) r,
      e,
      all,
    )
stopped_from buffer s before (asking c d ∷ rest) p w h (q, _) = elim q [ ]
stopped_from buffer s before (ended ∷ rest) p w h (_, q) =
    stopped_from buffer s (before ++ ended ∷ []) rest p
      (w ∙ sym (append_assoc before (ended ∷ []) rest)) (All-snoc before h) q

-- After the quit signal, if no worker waits for another, there is a run on which `Serve` ends with every worker
-- returned: the workers finish the connections that they have.
pub shutdown_possible :
    (buffer : ℕ) (s : Serving)
    → s.phase ≡ stopping
    → All IsQuiet s.workers
    → (t : Serving) × Steps buffer s t × (t.phase ≡ done) × All HasEnded t.workers
shutdown_possible buffer s p q =
    let (t, r, e, all) = stopped_from buffer s [] s.workers p refl tt q in
    (record t { phase = done }, next r (finale e all), refl, all)
