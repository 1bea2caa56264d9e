-- ===== src/Chord/Stabilize.antt =====
-- What a node does about its neighbours: `Successor`, `Initialize` and `Stabilize` of chord/local.go,
-- over calls to the other nodes. `NewRemoteNode` never fails.
pub mod Chain
pub mod Decision
pub mod Keeps
use peerstore.Base.{
  ℕ, zero, suc, String, ◌==◌, string_eq, bytes_eq, nat_eq, ltb, ◌&&◌, ◌||◌, Bool, true, false,
}
use peerstore.Base.{Option, none, some, if◌then◌else◌, Ordering}
use peerstore.Base.Result.{Error, new, wrap, Result, ok, err, panic}
use peerstore.Models.Node.{
  Identifier, Node, zero_node, PublicKey, PrivateKey, key_to_id, compare_node,
}
use peerstore.Chord.LocalNode.{
  LocalNode, to_node, closest_preceding_node, set_successor, get_predecessor,
}
use peerstore.Chord.LocalNode.{new_local_node}
use peerstore.Chord.Remote.{Peers, new_remote_node}

module _ {W : Type 0} (hash : String → Identifier) (others : Peers W) where
  abbrev pub remote : Node → Node
  remote n = new_remote_node hash n.addr n.public_key

  abbrev wrap_outcome {ℓ} : {A : Type ℓ} → String → Result A × W → Result A × W
  wrap_outcome m (ok a, w) = (ok a, w)
  wrap_outcome m (err e, w) = (err (wrap m e), w)
  wrap_outcome m (panic, w) = (panic, w)

  abbrev successor_from : LocalNode → Identifier → Result Node → W → Result Node × W
  successor_from ln id (err e) w = (err (wrap "failed to get successor: " e), w)
  successor_from ln id panic w = (panic, w)
  successor_from ln id (ok n) w =
      if n.id == ln.node.id
      then (ok (to_node ln), w)
      else wrap_outcome "failure getting successor from remote node: "
          (others.successor (remote n) id w)

  unfoldable pub successor : LocalNode → Identifier → W → Result Node × W
  successor ln id w = successor_from ln id (closest_preceding_node ln id) w

  abbrev pub Outcome : Type 0
  Outcome = Result (Unit {0}) × LocalNode × W

  -- An error of `SetPredecessor` is dropped.
  abbrev pub dropping : LocalNode → Result (Unit {0}) × W → Outcome
  dropping ln (ok _, w) = (ok tt, ln, w)
  dropping ln (err e, w) = (ok tt, ln, w)
  dropping ln (panic, w) = (panic, ln, w)

  -- Make `p` the successor, and tell it so.
  abbrev pub join : LocalNode → Node → W → Outcome
  join ln p w =
      let ln' = set_successor ln p in
      dropping ln' (others.set_predecessor (remote p) (to_node ln') w)

  -- After the peer has named the successor
  abbrev initialized : LocalNode → Result Node × W → Result (Unit {0}) × LocalNode × W
  initialized ln (err e, w) =
      (err (wrap "failed to initialize, could not get successor: " e), ln, w)
  initialized ln (panic, w) = (panic, ln, w)
  initialized ln (ok s, w) = join ln s w

  unfoldable pub initialize : LocalNode → Node → W → Result (Unit {0}) × LocalNode × W
  initialize ln peer w = initialized ln (others.successor (remote peer) ln.node.id w)

  -- `NewLocalNode`: the new node and the error of `Initialize`
  unfoldable pub start_node : PrivateKey → String → Node → W → Result (Unit {0}) × LocalNode × W
  start_node key addr peer w = initialize (new_local_node key addr (hash addr)) peer w

  -- One round of the loop over the chain of predecessors. An error leaves the loop, and the end of the
  -- chain becomes the successor.
  abbrev chain_round :
      LocalNode → Node → (Node → W → Option Outcome) → Result Node × W → Option Outcome
  chain_round ln p more (err e, w) = some (ok tt, ln, w)
  chain_round ln p more (panic, w) = some (panic, ln, w)
  chain_round ln p more (ok q, w) =
      let rest = more q w in if q.addr == "" then some (join ln p w) else rest

  -- `none` means that the fuel ran out.
  unfoldable pub chain_loop : ℕ → LocalNode → Node → W → Option Outcome
  chain_loop zero ln p w = none
  chain_loop (suc fuel) ln p w =
      chain_round ln p (chain_loop fuel ln) (others.get_predecessor (remote p) w)

  -- The node is its own successor.
  unfoldable pub stabilize_alone : ℕ → LocalNode → W → Option Outcome
  stabilize_alone fuel ln w =
      if (get_predecessor ln).addr == ""
      then some (ok tt, ln, w)
      else chain_loop fuel ln (get_predecessor ln) w

  abbrev told : String → LocalNode → Result (Unit {0}) × W → Outcome
  told m ln (ok _, w) = (ok tt, ln, w)
  told m ln (err e, w) = (err (wrap m e), ln, w)
  told m ln (panic, w) = (panic, ln, w)

  -- Change the successor's predecessor to this node.
  abbrev pub notify : LocalNode → Node → W → Outcome
  notify ln s w =
      told "error setting new successor's predecessor to self: " ln
        (others.set_predecessor (remote s) (to_node ln) w)

  -- Use the successor's predecessor as the successor, and tell it.
  abbrev pub adopt : LocalNode → Node → W → Outcome
  adopt ln p w =
      let ln' = set_successor ln p in
      told "error setting new successor's predecessor to self: " ln'
        (others.set_predecessor (remote p) (to_node ln') w)

  abbrev decide : LocalNode → Node → Node → W → Outcome
  decide ln s p w =
      let ln_id = key_to_id ln.node.id in
      let pred_id = key_to_id p.id in
      let succ_id = key_to_id s.id in
      if pred_id == ln_id
      then (ok tt, ln, w)
      else if ltb pred_id succ_id
      then if ltb pred_id ln_id && ltb ln_id succ_id then notify ln s w else adopt ln p w
      else if ltb pred_id ln_id || ltb ln_id succ_id
      then adopt ln p w
      else notify ln s w

  abbrev asked : LocalNode → Node → Result Node × W → Outcome
  asked ln s (err e, w) = (err (wrap "error setting new predecessor on remote node:" e), ln, w)
  asked ln s (panic, w) = (panic, ln, w)
  asked ln s (ok p, w) = decide ln s p w

  unfoldable pub stabilize_with : LocalNode → Node → W → Outcome
  stabilize_with ln s w = asked ln s (others.get_predecessor (remote s) w)

  abbrev is_self : Ordering → Bool
  is_self Ordering.eq = true
  is_self Ordering.lt = false
  is_self Ordering.gt = false

  abbrev stabilize_from : ℕ → LocalNode → Result Node × W → Option Outcome
  stabilize_from fuel ln (err e, w) = some (err (wrap "failed to get successor: " e), ln, w)
  stabilize_from fuel ln (panic, w) = some (panic, ln, w)
  stabilize_from fuel ln (ok s, w) =
      if is_self (compare_node ln.node s)
      then stabilize_alone fuel ln w
      else some (stabilize_with ln s w)

  -- `fuel` bounds the rounds of the loop over the chain of predecessors, which has no bound of its own.
  unfoldable pub stabilize : ℕ → LocalNode → W → Option Outcome
  stabilize fuel ln w = stabilize_from fuel ln (successor ln ln.node.id w)
