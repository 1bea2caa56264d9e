-- ===== src/Chord/LocalNode.antt =====
-- A node's own part of the ring: `LocalNode` of chord/local.go. Of its server only the private key is
-- used. The mutex of the predecessor makes its reads and writes run alone.
pub mod Closest
pub mod Predecessor
use peerstore.Base.{ℕ, zero, suc, String, ◌==◌, string_eq, not, ◌&&◌, Bool, true, false, ltb, ◌||◌}
use peerstore.Base.{some, if◌then◌else◌}
use peerstore.Base.Result.{Error, new, wrap, Result, ok, err, panic}
use peerstore.Models.Node.{Identifier, Node, zero_node, PrivateKey, key_to_id, table_size}
use peerstore.Models.FingerTable.{
  FingerTable, Finger, new_finger_table, new_interval, get_ith, set_ith,
}
use peerstore.Chord.Ring.{within, closer}

pub record LocalNode : Type 0 where
  pub node : Node
  pub finger_table : FingerTable
  pub predecessor : Node
  pub key : PrivateKey

-- `ToNode`
abbrev pub to_node : LocalNode → Node
to_node ln = record { id = ln.node.id; addr = ln.node.addr; public_key = some ln.key.public }

abbrev pub with_table : LocalNode → Result FingerTable → LocalNode
with_table ln (ok t) = record ln { finger_table = t }
with_table ln (err e) = ln
with_table ln panic = ln

-- `SetSuccessor`: the first finger. Its callers drop the error.
unfoldable pub set_successor : LocalNode → Node → LocalNode
set_successor ln node =
    with_table ln (set_ith ln.finger_table 1 (new_interval (to_node ln) node) node (to_node ln))

-- `NewLocalNode`, up to the call of `Initialize`. `id` is the SHA-1 hash of the address.
unfoldable pub new_local_node : PrivateKey → String → Identifier → LocalNode
new_local_node key addr id =
    let n : Node = record { id = id; addr = addr; public_key = some key.public } in
    let ln : LocalNode = record {
      node = n;
      finger_table = new_finger_table;
      predecessor = zero_node;
      key = key;
    } in
    with_table ln (set_ith ln.finger_table 1 (new_interval n n) n (to_node ln))

-- One round of the loop of `ClosestPrecedingNode`, with the outcome of the rounds that follow
abbrev closest_round : ℕ → ℕ → Result Finger → Result Node → Result Node
closest_round self n (err e) more = err (wrap "failed to get closest preceding: " e)
closest_round self n panic more = panic
closest_round self n (ok ith) more =
    if ith.successor.addr == ""
    then more
    else if within self (key_to_id ith.successor.id) n
    then ok ith.successor
    else more

-- `for i := models.M; i >= 1; i--`
unfoldable pub closest_loop : LocalNode → ℕ → ℕ → ℕ → Result Node
closest_loop ln self n zero = ok (to_node ln)
closest_loop ln self n (suc i) =
    let more = closest_loop ln self n i in
    closest_round self n (get_ith ln.finger_table (suc i)) more

unfoldable pub closest_preceding_node : LocalNode → Identifier → Result Node
unfolding closest_loop
closest_preceding_node ln id = closest_loop ln (key_to_id ln.node.id) (key_to_id id) table_size

-- `SetPredecessor`: the error, and the node after it
unfoldable pub set_predecessor : LocalNode → Node → Result (Unit {0}) × LocalNode
set_predecessor ln n =
    if ln.predecessor.addr == ""
    then (ok tt, record ln { predecessor = n })
    else if closer (key_to_id ln.predecessor.id) (key_to_id n.id) (key_to_id ln.node.id)
    then (ok tt, record ln { predecessor = n })
    else (err (new "not updating as new isn't between"), ln)

-- `GetPredecessor`
abbrev pub get_predecessor : LocalNode → Node
get_predecessor ln = ln.predecessor
