-- ===== src/Chord/LocalNode/Closest.antt =====
-- `ClosestPrecedingNode` finds the highest finger that lies between the node and the key.
use peerstore.Base.{ℕ, zero, suc, ◌<◌, ◌≤◌, ◌≡◌, ◌⊎◌, inl, inr, refl, Bool, true, false, not, ◌&&◌}
use peerstore.Base.{◌==◌, string_eq, nat_eq, arith, Bool-cases}
use peerstore.Base.Result.{Result, ok}
use peerstore.Models.Node.{Identifier, Node, key_to_id}
use peerstore.Models.FingerTable.{FingerTable, Finger, IsTable, get_ith}
use peerstore.Models.FingerTable.Laws.{get_ith-total}
use peerstore.Chord.Ring.{within}
use peerstore.Chord.LocalNode.{
  LocalNode, to_node, closest_loop, closest_round, closest_preceding_node,
}

-- The finger is in use and lies between the places `self` and `n`.
abbrev pub usable : ℕ → ℕ → Finger → Bool
usable self n f = not (f.successor.addr == "") && within self (key_to_id f.successor.id) n

-- The fingers from `i` on upwards to `top` are not usable.
abbrev pub NoneAbove : FingerTable → ℕ → ℕ → ℕ → ℕ → Type 0
NoneAbove ft self n i top =
    (j : ℕ) (f : Finger) → i < j → j ≤ top → get_ith ft j ≡ ok f → usable self n f ≡ false

-- What the search has found among the first `top` fingers
abbrev pub IsClosest : LocalNode → ℕ → ℕ → ℕ → Node → Type 0
IsClosest ln self n top found =
    ((found ≡ to_node ln) × NoneAbove ln.finger_table self n 0 top)
    ⊎ ((i : ℕ) × (f : Finger) × (1 ≤ i)
        × (i ≤ top)
        × (get_ith ln.finger_table i ≡ ok f)
        × (found ≡ f.successor)
        × (usable self n f ≡ true)
        × NoneAbove ln.finger_table self n i top)

closest_round-usable :
    (self n : ℕ) (f : Finger) (more : Result Node)
    → usable self n f ≡ true
    → closest_round self n (ok f) more ≡ ok f.successor
closest_round-usable self n f more u = ground arith

closest_round-other :
    (self n : ℕ) (f : Finger) (more : Result Node)
    → usable self n f ≡ false
    → closest_round self n (ok f) more ≡ more
closest_round-other self n f more u = ground arith

module _ (ln : LocalNode) (self n : ℕ) (t : IsTable ln.finger_table) where
  extend :
      (i top : ℕ) (f : Finger)
      → get_ith ln.finger_table (suc top) ≡ ok f
      → usable self n f ≡ false
      → NoneAbove ln.finger_table self n i top
      → NoneAbove ln.finger_table self n i (suc top)
  extend i top f e u none_above j g lo hi eg = elim (Bool-cases (j == suc top)) [
    | inl same ↦
        let e' : get_ith ln.finger_table j ≡ ok f =
          (let k : j ≡ suc top = ground arith in rw k e) in
        let fg : f ≡ g = cc in rw (← fg) u
    | inr other ↦ none_above j g lo (ground arith) eg
  ]

  widen :
      (top : ℕ) (f : Finger)
      → get_ith ln.finger_table (suc top) ≡ ok f
      → usable self n f ≡ false
      → (found : Node) → IsClosest ln self n top found
      → IsClosest ln self n (suc top) found
  widen top f e u found (inl (self_eq, none_above)) = inl (self_eq, extend 0 top f e u none_above)
  widen top f e u found (inr (i, g, lo, hi, eg, found_eq, ug, none_above)) =
      inr (i, g, lo, omega arith, eg, found_eq, ug, extend i top f e u none_above)

  closest_loop-IsClosest :
      (top : ℕ)
      → top ≤ 160
      → (found : Node) × (closest_loop ln self n top ≡ ok found) × IsClosest ln self n top found
  unfolding closest_loop
  closest_loop-IsClosest zero h =
      (to_node ln, refl, inl (refl, λ j f lo hi e. absurd (omega arith)))
  closest_loop-IsClosest (suc top) h =
      let (f, e) = get_ith-total ln.finger_table (suc top) t (omega arith) h in
      let (found, found_eq, closest) = closest_loop-IsClosest top (omega arith) in
      elim (Bool-cases (usable self n f)) [
        | inl u ↦ (
          f.successor,
          rw (e, closest_round-usable self n f (closest_loop ln self n top) u),
          inr (
            suc top,
            f,
            omega arith,
            omega arith,
            e,
            refl,
            u,
            λ j g lo hi eg. absurd (omega arith),
          ),
        )
        | inr u ↦ (
          found,
          rw (e, closest_round-other self n f (closest_loop ln self n top) u) found_eq,
          widen top f e u found closest,
        )
      ]

-- On a table of 160 fingers the search succeeds. It answers the successor of the highest finger that is in
-- use and lies between this node and the key, or this node itself where there is none.
pub closest_preceding_node-IsClosest :
    (ln : LocalNode) (id : Identifier)
    → IsTable ln.finger_table
    → (found : Node) × (closest_preceding_node ln id ≡ ok found)
      × IsClosest ln (key_to_id ln.node.id) (key_to_id id) 160 found
unfolding closest_preceding_node
closest_preceding_node-IsClosest ln id t =
    closest_loop-IsClosest ln (key_to_id ln.node.id) (key_to_id id) t 160 (omega arith)
