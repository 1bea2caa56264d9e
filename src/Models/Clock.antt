-- ===== src/Models/Clock.antt =====
-- The Lamport clock of models.go, a global `uint64` behind a lock: each operation runs alone, so the
-- clock is passed from one to the next.
pub mod Laws
use peerstore.Base.{ℕ, ◌+◌, ◌%◌, ◌^◌, ◌<◌, ltb, if◌then◌else◌, List, [], ◌∷◌}

abbrev pub u64 : ℕ → ℕ
u64 n = n % 2 ^ 64

abbrev pub IsU64 : ℕ → Type 0
IsU64 n = n < 2 ^ 64

abbrev pub init_clock : ℕ
init_clock = 1

-- `GetClock`
abbrev pub get_clock : ℕ → ℕ
get_clock clock = clock

-- `IncrementClock(base)`: the new value of the clock, which is also what it returns
unfoldable pub increment_clock : ℕ → ℕ → ℕ
increment_clock clock base = if ltb clock base then u64 (base + 1) else u64 (clock + 1)

-- The clock after the messages that carried the listed clocks
unfoldable pub receive_all : ℕ → List ℕ → ℕ
receive_all clock [] = clock
receive_all clock (base ∷ rest) = receive_all (increment_clock clock base) rest
