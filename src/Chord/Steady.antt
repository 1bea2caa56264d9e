-- ===== src/Chord/Steady.antt =====
-- What setting the neighbours leaves of a node: its identity, and a whole finger table.
use peerstore.Base.{◌≡◌, refl, ◌∙◌, arith, string_eq}
use peerstore.Base.Result.{Result, ok, err, panic}
use peerstore.Models.Node.{Node, PrivateKey}
use peerstore.Models.FingerTable.{FingerTable, IsTable}
use peerstore.Protocol.Message.{Request}
use peerstore.Chord.LocalNode.{LocalNode, with_table, set_predecessor, set_successor}
use peerstore.Chord.Remote.{Gob}
use peerstore.Chord.Handlers.{set_predecessor_handler}
use peerstore.Chord.Stabilize.Decision.{get_ith-set_successor}

-- A whole finger table, and the identity of the node
abbrev pub OfNode : Node → PrivateKey → LocalNode → Type 0
OfNode n key ln = IsTable ln.finger_table × (ln.node ≡ n) × (ln.key ≡ key)

-- The node, its key and its predecessor are the same.
abbrev pub Same : LocalNode → LocalNode → Type 0
Same a b = (a.node ≡ b.node) × (a.key ≡ b.key) × (a.predecessor ≡ b.predecessor)

with_table-Same : (ln : LocalNode) (t : Result FingerTable) → Same (with_table ln t) ln
with_table-Same ln (ok t) = (refl, refl, refl)
with_table-Same ln (err e) = (refl, refl, refl)
with_table-Same ln panic = (refl, refl, refl)

pub set_successor-Same : (ln : LocalNode) (s : Node) → Same (set_successor ln s) ln
unfolding set_successor
set_successor-Same ln s = with_table-Same ln _

pub set_successor-OfNode :
    (n : Node) (key : PrivateKey) (ln : LocalNode) (s : Node)
    → OfNode n key ln
    → OfNode n key (set_successor ln s)
set_successor-OfNode n key ln s (t, own, k) =
    let (f, first, is_s, t') = get_ith-set_successor ln s t in
    let (a, b, _) = set_successor-Same ln s in (t', a ∙ own, b ∙ k)

pub set_predecessor_handler-OfNode :
    (gob : Gob) (n : Node) (key : PrivateKey) (ln : LocalNode) (r : Request)
    → OfNode n key ln
    → OfNode n key (set_predecessor_handler gob ln r).1
unfolding set_predecessor_handler set_predecessor
set_predecessor_handler-OfNode gob n key ln r h = ground arith
