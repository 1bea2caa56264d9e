-- ===== src/Chord/Routing.antt =====
-- A lookup over the whole ring: each node passes it to the node that `ClosestPrecedingNode` names, until
-- one names itself. The nodes are a map from addresses, and every connection works.
use peerstore.Base.{
  ℕ, zero, suc, ◌<◌, ◌≤◌, ◌≡◌, sym, ap, ◌∙◌, String, Option, none, some, Bool-cases, inl, inr,
}
use peerstore.Base.{◌==◌, bytes_eq, bytes_beq_iff, string_eq, arith, true, false}
use peerstore.Base.Dict.{Dict, lookup}
use peerstore.Base.Result.{Result, ok, err, cause}
use peerstore.Models.Node.{Identifier, Node, key_to_id}
use peerstore.Models.Node.Order.{key_to_id-lt}
use peerstore.Models.FingerTable.{IsTable, Finger, get_ith}
use peerstore.Chord.Ring.{within, within-arc, arc, arc_bounds}
use peerstore.Chord.LocalNode.{LocalNode, to_node, closest_preceding_node}
use peerstore.Base.{==-self}
use peerstore.Chord.Remote.{Peers, new_remote_node}
use peerstore.Chord.Stabilize.{successor}
use peerstore.Chord.LocalNode.Closest.{
  usable, IsClosest, NoneAbove, closest_preceding_node-IsClosest,
}

abbrev pub Nodes : Type 0
Nodes = Dict String LocalNode

abbrev answer_at : (LocalNode → Result Node) → Option LocalNode → Result Node
answer_at more none = err (cause "dial")
answer_at more (some ln) = more ln

-- The other nodes, where `more` is what a node answers. A lookup asks them for nothing else.
abbrev pub ring_peers : (LocalNode → Identifier → Result Node) → Nodes → Peers (Unit {0})
ring_peers more nodes = record {
  get_predecessor = λ rn w. (err (cause "dial"), w);
  set_predecessor = λ rn n w. (err (cause "dial"), w);
  successor = λ rn id w. (answer_at (λ ln. more ln id) (lookup rn.addr nodes), w);
}

-- A lookup, with fuel for the hops
unfoldable pub route : (String → Identifier) → Nodes → ℕ → LocalNode → Identifier → Result Node
route hash nodes zero ln id = err (cause "fuel")
route hash nodes (suc fuel) ln id =
    (successor hash (ring_peers (route hash nodes fuel) nodes) ln id tt).0

-- Every node has a whole table, and at the address that a finger in use names there is the node that the
-- finger means.
pub record IsRing (nodes : Nodes) : Type 0 where
  pub whole : (a : String) (ln : LocalNode) → lookup a nodes ≡ some ln → IsTable ln.finger_table
  pub named :
      (a : String) (ln : LocalNode) (i : ℕ) (f : Finger)
      → lookup a nodes ≡ some ln
      → get_ith ln.finger_table i ≡ ok f
      → (f.successor.addr == "") ≡ false
      → (next : LocalNode) × (lookup f.successor.addr nodes ≡ some next)
        × (next.node.id ≡ f.successor.id)

-- The distance that a lookup of `id` still has to go at this node
abbrev pub distance : LocalNode → Identifier → ℕ
distance ln id = arc (key_to_id ln.node.id) (key_to_id id)

-- A node of the ring with no finger that is nearer before the key
pub record IsLast (nodes : Nodes) (id : Identifier) (m : LocalNode) : Type 0 where
  pub addr : String
  pub there : lookup addr nodes ≡ some m
  pub none_nearer : NoneAbove m.finger_table (key_to_id m.node.id) (key_to_id id) 0 160

true-false : true ≡ false → ⊥
true-false e = cc

within_self : (a n : ℕ) → within a a n ≡ false
within_self a n = ground arith

usable_parts :
    (self n : ℕ) (f : Finger)
    → usable self n f ≡ true
    → ((f.successor.addr == "") ≡ false) × (within self (key_to_id f.successor.id) n ≡ true)
usable_parts self n f u = ground arith

-- A usable finger is another node, and nearer before the key.
usable_nearer :
    (ln : LocalNode) (id : Identifier) (f : Finger)
    → usable (key_to_id ln.node.id) (key_to_id id) f ≡ true
    → ((f.successor.id == ln.node.id) ≡ false)
      × (arc (key_to_id f.successor.id) (key_to_id id) < distance ln id)
usable_nearer ln id f u =
    let (used, between) = usable_parts (key_to_id ln.node.id) (key_to_id id) f u in
    let shorter =
      (within-arc (key_to_id ln.node.id) (key_to_id f.successor.id) (key_to_id id)
        (key_to_id-lt ln.node.id) (key_to_id-lt f.successor.id) (key_to_id-lt id)).1 in
    (
      elim (Bool-cases (f.successor.id == ln.node.id)) [
        | inl same ↦
            let e = (bytes_beq_iff f.successor.id ln.node.id).0 same in
            absurd (
              true-false
                (sym (rw e at between) ∙ within_self (key_to_id ln.node.id) (key_to_id id)))
        | inr other ↦ other
      ],
      ground (arith, shorter),
    )

module _ {W : Type 0} (hash : String → Identifier) (others : Peers W) (ln : LocalNode)
    (id : Identifier) (w : W) where
  successor_self :
      closest_preceding_node ln id ≡ ok (to_node ln)
      → successor hash others ln id w ≡ (ok (to_node ln), w)
  unfolding successor
  successor_self e = rw (e, ==-self ln.node.id)

  successor-other :
      (n r : Node)
      → closest_preceding_node ln id ≡ ok n
      → (n.id == ln.node.id) ≡ false
      → others.successor (new_remote_node hash n.addr n.public_key) id w ≡ (ok r, w)
      → successor hash others ln id w ≡ (ok r, w)
  unfolding successor
  successor-other n r e other asked = rw (e, other, asked)

module _ (hash : String → Identifier) (nodes : Nodes) (ring : IsRing nodes) (id : Identifier) where
  route_self :
      (fuel : ℕ) (ln : LocalNode)
      → closest_preceding_node ln id ≡ ok (to_node ln)
      → route hash nodes (suc fuel) ln id ≡ ok (to_node ln)
  unfolding route
  route_self fuel ln e =
      ap (λ (x : Result Node × Unit {0}). x.0)
        (successor_self hash (ring_peers (route hash nodes fuel) nodes) ln id tt e)

  route_next :
      (fuel : ℕ) (ln next : LocalNode) (n r : Node)
      → closest_preceding_node ln id ≡ ok n
      → (n.id == ln.node.id) ≡ false
      → lookup n.addr nodes ≡ some next
      → route hash nodes fuel next id ≡ ok r
      → route hash nodes (suc fuel) ln id ≡ ok r
  unfolding route new_remote_node
  route_next fuel ln next n r e other there answer =
      let others = ring_peers (route hash nodes fuel) nodes in
      let asked : others.successor (new_remote_node hash n.addr n.public_key) id tt ≡ (ok r, tt) =
        rw (there, answer) in
      ap (λ (x : Result Node × Unit {0}). x.0)
        (successor-other hash others ln id tt n r e other asked)

  -- On a ring where every node has a whole table and every finger in use names a node, a lookup
  -- that has as much fuel as the distance to the key ends, at a node of the ring that knows none
  -- nearer before the key.
  pub route_ends :
      (fuel : ℕ) (a : String) (ln : LocalNode)
      → lookup a nodes ≡ some ln
      → distance ln id ≤ fuel
      → (m : LocalNode) × (route hash nodes fuel ln id ≡ ok (to_node m)) × IsLast nodes id m
  route_ends zero a ln at h = absurd (
      omega (
        arith,
        arc_bounds (key_to_id ln.node.id) (key_to_id id) (key_to_id-lt ln.node.id)
            (key_to_id-lt id),
      ))
  route_ends (suc fuel) a ln at h =
      let (found, e, closest) = closest_preceding_node-IsClosest ln id (ring.whole a ln at) in
      go found e closest (λ b next there near. route_ends fuel b next there near)
    where
      go :
          (found : Node)
          → closest_preceding_node ln id ≡ ok found
          → IsClosest ln (key_to_id ln.node.id) (key_to_id id) 160 found
          → ((b : String) (next : LocalNode)
              → lookup b nodes ≡ some next
              → distance next id ≤ fuel
              → (m : LocalNode) × (route hash nodes fuel next id ≡ ok (to_node m))
                × IsLast nodes id m)
          → (m : LocalNode) × (route hash nodes (suc fuel) ln id ≡ ok (to_node m))
            × IsLast nodes id m
      go found e (inl (is_self, none_above)) ih = (
        ln,
        route_self fuel ln (e ∙ ap ok is_self),
        record { addr = a; there = at; none_nearer = none_above },
      )
      go found e (inr (i, f, lo, hi, ef, is_f, u, none_above)) ih =
          let (used, between) = usable_parts (key_to_id ln.node.id) (key_to_id id) f u in
          let (next, there, same_id) = ring.named a ln i f at ef used in
          let (other, nearer) = usable_nearer ln id f u in
          let close : distance next id ≤ fuel = rw same_id (omega (arith, nearer, h)) in
          let (m, answer, is_last) = ih f.successor.addr next there close in
          (
            m,
            route_next fuel ln next f.successor (to_node m) (e ∙ ap ok is_f) other there answer,
            is_last,
          )
