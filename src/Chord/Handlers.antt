-- ===== src/Chord/Handlers.antt =====
-- The handlers of chord/handlers.go: requests of other nodes to this one.
pub mod Laws
pub mod Responds
use peerstore.Base.{Option, none, some, Bytes, Bool, true, false, []}
use peerstore.Base.{String}
use peerstore.Base.Result.{Result, ok, err, panic}
use peerstore.Models.Node.{Identifier, Node, zero_node}
use peerstore.Models.FingerTable.{FingerTable}
use peerstore.Protocol.Message.{Request, Response, zero_header, success, error_response}
use peerstore.Chord.LocalNode.{LocalNode, set_predecessor, get_predecessor}
use peerstore.Chord.Remote.{Gob, Peers}
use peerstore.Chord.Stabilize.{successor}

-- A success with an encoded value, or the error where encoding fails
abbrev pub encoded : Option Bytes → Response
encoded none = error_response
encoded (some body) = record { header = zero_header; status = success; body = body }

-- A panic of the handler leaves no response.
abbrev answered : {W : Type 0} → (Node → Response) → Result Node × W → Option Response × W
answered f (ok n, w) = (some (f n), w)
answered f (err e, w) = (some (f zero_node), w)
answered f (panic, w) = (none, w)

module _ {W : Type 0} (hash : String → Identifier) (others : Peers W) (gob : Gob) where
  abbrev successor_decoded : LocalNode → Option Identifier → W → Option Response × W
  successor_decoded ln none w = (some error_response, w)
  successor_decoded ln (some id) w =
      answered (λ n. encoded (gob.encode_node n)) (successor hash others ln id w)

  -- The error of `Successor` is dropped. Each of its errors comes with the zero node.
  unfoldable pub successor_handler : LocalNode → Request → W → Option Response × W
  successor_handler ln r w = successor_decoded ln (gob.decode_id r.body) w

module _ (gob : Gob) where
  unfoldable pub get_predecessor_handler : LocalNode → Request → Response
  get_predecessor_handler ln r = encoded (gob.encode_node (get_predecessor ln))

  abbrev predecessor_set : Result (Unit {0}) × LocalNode → Response × LocalNode
  predecessor_set (ok _, ln) = (record { header = zero_header; status = success; body = [] }, ln)
  predecessor_set (err e, ln) = (error_response, ln)
  predecessor_set (panic, ln) = (error_response, ln)

  abbrev predecessor_decoded : LocalNode → Node × Bool → Response × LocalNode
  predecessor_decoded ln (n, false) = (error_response, ln)
  predecessor_decoded ln (n, true) = predecessor_set (set_predecessor ln n)

  unfoldable pub set_predecessor_handler : LocalNode → Request → Response × LocalNode
  set_predecessor_handler ln r = predecessor_decoded ln (gob.decode_node r.body)

-- `encode_table` is gob's encoding of a finger table.
unfoldable pub finger_table_handler : (FingerTable → Option Bytes) → LocalNode → Request → Response
finger_table_handler encode_table ln r = encoded (encode_table ln.finger_table)
