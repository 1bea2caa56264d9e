-- ===== src/Chord/Ring.antt =====
-- The ring of 160 places, and the interval tests of chord/local.go as distances on it.
use peerstore.Base.{ℕ, ◌+◌, ◌-◌, ◌%◌, ◌<◌, ◌≤◌, ◌≡◌, Bool, ltb, ◌==◌, nat_eq, ◌&&◌, ◌||◌, arith}
use peerstore.Base.{if◌then◌else◌}

-- `x` lies strictly between `lo` and `hi`, as `ClosestPrecedingNode` tests it; from a place to itself is
-- the whole ring.
abbrev pub within : ℕ → ℕ → ℕ → Bool
within lo x hi = if ltb lo hi then ltb lo x && ltb x hi else ltb lo x || ltb x hi

-- The same, as `SetPredecessor` tests it
abbrev pub closer : ℕ → ℕ → ℕ → Bool
closer p n self = if ltb p self then ltb p n && ltb n self else ltb n self || ltb p n

-- The steps clockwise from `a` to `b`, 1 to 160: a place is a full turn away from itself.
unfoldable pub arc : ℕ → ℕ → ℕ
arc a b = if a == b then 160 else (b + 160 - a) % 160

pub arc_bounds : (a b : ℕ) → a < 160 → b < 160 → (1 ≤ arc a b) × (arc a b ≤ 160)
unfolding arc
arc_bounds a b h k = ground arith

-- Both tests compare distances: `x` is nearer to `lo` than `hi` is, seen from `lo`, and `n` is nearer to
-- `self` than `p` is, seen from `self`.
pub within-arc :
    (lo x hi : ℕ)
    → lo < 160
    → x < 160
    → hi < 160
    → (within lo x hi ≡ ltb (arc lo x) (arc lo hi)) × (within lo x hi ≡ ltb (arc x hi) (arc lo hi))
unfolding arc
within-arc lo x hi h k l = (ground arith, ground arith)

pub closer-arc :
    (p n self : ℕ)
    → p < 160
    → n < 160
    → self < 160
    → closer p n self ≡ ltb (arc n self) (arc p self)
unfolding arc
closer-arc p n self h k l = ground arith
