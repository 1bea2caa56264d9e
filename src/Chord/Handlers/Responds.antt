-- ===== src/Chord/Handlers/Responds.antt =====
-- The responses of the chord handlers, as messages.
use peerstore.Base.{arith, String, Option, none, some, Bytes}
use peerstore.Models.Node.{Identifier}
use peerstore.Models.FingerTable.{FingerTable}
use peerstore.Protocol.Message.{Request, Response, IsResponse, validate_response}
use peerstore.Chord.LocalNode.{LocalNode}
use peerstore.Chord.Remote.{Gob, Peers}
use peerstore.Chord.Handlers.{
  successor_handler, get_predecessor_handler, set_predecessor_handler, finger_table_handler,
}

-- A response, where there is one, passes `Validate`.
abbrev pub MaybeResponse : Option Response → Type 0
MaybeResponse none = Unit
MaybeResponse (some resp) = IsResponse resp

-- Each response of the four handlers of the ring passes the client's validation.
pub ring_handlers-IsResponse :
    {W : Type 0} (hash : String → Identifier) (others : Peers W) (gob : Gob)
    (encode_table : FingerTable → Option Bytes) (ln : LocalNode) (r : Request) (w : W)
    → MaybeResponse (successor_handler hash others gob ln r w).0
      × IsResponse (set_predecessor_handler gob ln r).0
      × IsResponse (get_predecessor_handler gob ln r)
      × IsResponse (finger_table_handler encode_table ln r)
unfolding successor_handler set_predecessor_handler get_predecessor_handler finger_table_handler
    validate_response
ring_handlers-IsResponse hash others gob encode_table ln r w =
    (ground arith, ground arith, ground arith, ground arith)
