-- ===== src/Chord/LocalNode/Predecessor.antt =====
-- Of all nodes that announce themselves, `SetPredecessor` keeps the nearest one behind.
use peerstore.Base.{
  ℕ, ◌≤◌, ◌≡◌, ◌⊎◌, inl, inr, refl, sym, subst, ap, ◌∙◌, true, false, ◌==◌, string_eq,
}
use peerstore.Base.{List, [], ◌∷◌, All, arith, Bool-cases}
use peerstore.Base.Result.{Result, ok}
use peerstore.Models.Node.{Node, key_to_id}
use peerstore.Models.Node.Order.{key_to_id-lt}
use peerstore.Chord.Ring.{arc, closer, closer-arc}
use peerstore.Chord.LocalNode.{LocalNode, set_predecessor}

-- The calls of `SetPredecessor` in the order in which they arrive
unfoldable pub announce_all : LocalNode → List Node → LocalNode
announce_all ln [] = ln
announce_all ln (n ∷ ns) = announce_all (set_predecessor ln n).1 ns

abbrev pub HasAddr : Node → Type 0
HasAddr n = (n.addr == "") ≡ false

-- The distance from a node to the place `self`
abbrev pub behind : ℕ → Node → ℕ
behind self n = arc (key_to_id n.id) self

abbrev pub OneOf : Node → List Node → Type 0
OneOf n [] = ⊥
OneOf n (m ∷ ms) = (n ≡ m) ⊎ OneOf n ms

-- `p'` is what the calls for `ns` leave of the predecessor `p`: the nearest of all.
pub record IsNearest (self : ℕ) (p : Node) (ns : List Node) (p' : Node) : Type 0 where
  pub has_addr : HasAddr p'
  pub below_old : behind self p' ≤ behind self p
  pub below_new : All (λ n. behind self p' ≤ behind self n) ns
  pub chosen : (p' ≡ p) ⊎ OneOf p' ns

node-set_predecessor : (ln : LocalNode) (n : Node) → (set_predecessor ln n).1.node ≡ ln.node
unfolding set_predecessor
node-set_predecessor ln n = ground arith

set_predecessor-IsNearest :
    (ln : LocalNode) (n : Node) (self : ℕ)
    → key_to_id ln.node.id ≡ self
    → HasAddr ln.predecessor
    → HasAddr n
    → IsNearest self ln.predecessor (n ∷ []) (set_predecessor ln n).1.predecessor
unfolding set_predecessor
set_predecessor-IsNearest ln n self e h k =
    let test =
      closer-arc (key_to_id ln.predecessor.id) (key_to_id n.id) (key_to_id ln.node.id)
        (key_to_id-lt ln.predecessor.id) (key_to_id-lt n.id) (key_to_id-lt ln.node.id) in
    elim (Bool-cases
      (closer (key_to_id ln.predecessor.id) (key_to_id n.id) (key_to_id ln.node.id))) [
        | inl c ↦
            rw (h, c)
              (record {
                has_addr = k;
                below_old = ground (arith, test);
                below_new = (omega arith, tt);
                chosen = inr (inl refl);
              })
        | inr c ↦
            rw (h, c)
              (record {
                has_addr = h;
                below_old = omega arith;
                below_new = (ground (arith, test), tt);
                chosen = inl refl;
              })
      ]

choose :
    (p q r n : Node) (ns : List Node)
    → (q ≡ p) ⊎ OneOf q (n ∷ [])
    → (r ≡ q) ⊎ OneOf r ns
    → (r ≡ p) ⊎ OneOf r (n ∷ ns)
choose p q r n ns (inl e) (inl e') = inl (e' ∙ e)
choose p q r n ns (inr (inl e)) (inl e') = inr (inl (e' ∙ e))
choose p q r n ns (inr (inr h)) (inl e') = elim h [ ]
choose p q r n ns c (inr o) = inr (inr o)

announce_all-IsNearest :
    (ns : List Node) (ln : LocalNode) (self : ℕ)
    → key_to_id ln.node.id ≡ self
    → HasAddr ln.predecessor
    → All HasAddr ns
    → IsNearest self ln.predecessor ns (announce_all ln ns).predecessor
unfolding announce_all
announce_all-IsNearest [] ln self e h hs = record {
  has_addr = h;
  below_old = omega arith;
  below_new = tt;
  chosen = inl refl;
}
announce_all-IsNearest (n ∷ ns) ln self e h (k, hs) =
    let ln' = (set_predecessor ln n).1 in
    let step = set_predecessor-IsNearest ln n self e h k in
    let ih =
      announce_all-IsNearest ns ln' self
        (ap (λ (m : Node). key_to_id m.id) (node-set_predecessor ln n) ∙ e) step.has_addr hs in
    record {
      has_addr = ih.has_addr;
      below_old = omega (arith, ih.below_old, step.below_old);
      below_new = (omega (arith, ih.below_old, step.below_new.0), ih.below_new);
      chosen =
          choose ln.predecessor ln'.predecessor (announce_all ln' ns).predecessor n ns step.chosen
            ih.chosen;
    }

announce_all-first :
    (ln : LocalNode) (n : Node) (ns : List Node)
    → (ln.predecessor.addr == "") ≡ true
    → announce_all ln (n ∷ ns) ≡ announce_all (record ln { predecessor = n }) ns
unfolding announce_all set_predecessor
announce_all-first ln n ns empty =
    ap (λ (m : Result (Unit {0}) × LocalNode). announce_all m.1 ns) (first ln empty)
  where
    first :
        (l : LocalNode)
        → (l.predecessor.addr == "") ≡ true
        → set_predecessor l n ≡ (ok tt, record l { predecessor = n })
    first l e = rw e

-- A node without a predecessor that hears from at least one other, each with an address, ends with one of
-- them, and none of them is nearer behind it: in whatever order they came.
pub announce_all-nearest :
    (ln : LocalNode) (n : Node) (ns : List Node)
    → (ln.predecessor.addr == "") ≡ true
    → All HasAddr (n ∷ ns)
    → let p = (announce_all ln (n ∷ ns)).predecessor in
      let self = key_to_id ln.node.id in
      OneOf p (n ∷ ns) × All (λ m. behind self p ≤ behind self m) (n ∷ ns)
announce_all-nearest ln n ns empty (k, hs) =
    let r =
      announce_all-IsNearest ns (record ln { predecessor = n }) (key_to_id ln.node.id) refl k hs in
    subst
      (λ (m : LocalNode).
        OneOf m.predecessor (n ∷ ns)
        × All (λ m'. behind (key_to_id ln.node.id) m.predecessor ≤ behind (key_to_id ln.node.id) m')
            (n ∷ ns))
      (sym (announce_all-first ln n ns empty)) (r.chosen, (r.below_old, r.below_new))
