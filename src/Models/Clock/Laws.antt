-- ===== src/Models/Clock/Laws.antt =====
-- The clock condition: what a node does after a message is later than the message.
use peerstore.Base.{ℕ, ◌+◌, ◌≤◌, ◌<◌, ◌^◌, List, [], ◌∷◌, All, length, arith}
use peerstore.Models.Clock.{increment_clock, receive_all}

-- Short of the last `uint64`, the new clock is later than the old one and than the message's, and by
-- no more than one than the later of the two.
pub increment_clock-later :
    (clock base bound : ℕ)
    → clock ≤ bound
    → base ≤ bound
    → bound + 1 < 2 ^ 64
    → (clock < increment_clock clock base)
      × (base < increment_clock clock base)
      × (increment_clock clock base ≤ bound + 1)
unfolding increment_clock
increment_clock-later clock base bound h k l = ground arith

receive_all-later_aux :
    (bases : List ℕ) (clock bound : ℕ)
    → clock ≤ bound
    → All (λ b. b ≤ bound) bases
    → bound + length bases < 2 ^ 64
    → (clock ≤ receive_all clock bases)
      × All (λ b. b < receive_all clock bases) bases
      × (receive_all clock bases ≤ bound + length bases)
unfolding receive_all
receive_all-later_aux [] clock bound h hs l = (omega arith, tt, omega arith)
receive_all-later_aux (b ∷ bs) clock bound h (hb, hs) l =
    let step = increment_clock-later clock b bound h hb (omega arith) in
    let ih =
      receive_all-later_aux bs (increment_clock clock b) (bound + 1) step.2 (weaken bs hs)
        (omega arith) in
    (omega arith, (omega arith, ih.1), omega arith)
  where
    weaken : (xs : List ℕ) → All (λ x. x ≤ bound) xs → All (λ x. x ≤ bound + 1) xs
    weaken [] tt = tt
    weaken (x ∷ xs) (hx, hxs) = (omega arith, weaken xs hxs)

-- After any messages, none of whose clocks nor the own is above `bound`, the clock is later than every
-- one of them, did not fall, and rose above `bound` by at most one a message, as long as that many
-- increments stay below 2 ^ 64.
pub receive_all-later :
    (bases : List ℕ) (clock bound : ℕ)
    → clock ≤ bound
    → All (λ b. b ≤ bound) bases
    → bound + length bases < 2 ^ 64
    → (clock ≤ receive_all clock bases)
      × All (λ b. b < receive_all clock bases) bases
      × (receive_all clock bases ≤ bound + length bases)
receive_all-later = receive_all-later_aux
