-- ===== src/Chord/Remote.antt =====
-- Calls to other nodes: `RemoteNode` of chord/remote.go, over connections to them. Every caller makes a
-- new `RemoteNode` for a call, so each call opens a connection of its own and closes it.
use peerstore.Base.{ℕ, String, Bool, Option, none, some, Bytes, []}
use peerstore.Base.Result.{wrap, cause, Result, ok, err, panic}
use peerstore.Models.Node.{Identifier, Node, PublicKey}
use peerstore.Protocol.Message.{Header, zero_header, node_type, Request, Response}
use peerstore.Protocol.Message.{
  get_predecessor_method, get_successor_method, set_predecessor_method,
}

-- `protocol.NewTransport` and `RoundTrip`, over a state `W` of all that lies beyond this node. A request
-- goes to an address, encrypted for a key.
pub record Network (W : Type 0) : Type 0 where
  pub dial : String → W → Result (Unit {0}) × W
  pub round_trip : String → Option PublicKey → Request → W → Result Response × W

-- `encoding/gob` on the values that nodes exchange. `decode_node` is the value of the variable after
-- `Decode`, and whether `Decode` succeeded.
pub record Gob : Type 0 where
  pub encode_node : Node → Option Bytes
  pub decode_node : Bytes → Node × Bool
  pub encode_id : Identifier → Option Bytes
  pub decode_id : Bytes → Option Identifier

-- What a local node asks of the others
pub record Peers (W : Type 0) : Type 0 where
  pub get_predecessor : Node → W → Result Node × W
  pub set_predecessor : Node → Node → W → Result (Unit {0}) × W
  pub successor : Node → Identifier → W → Result Node × W

-- `NewRemoteNode`; `hash` is SHA-1 of the address.
unfoldable pub new_remote_node : (String → Identifier) → String → Option PublicKey → Node
new_remote_node hash addr key = record { id = hash addr; addr = addr; public_key = key }

abbrev remote_header : Node → Header
remote_header rn = record zero_header {
  from = rn.id;
  from_addr = rn.addr;
  caller = node_type;
  pub_key = rn.public_key;
}

module _ {W : Type 0} (net : Network W) (gob : Gob) where
  abbrev after_trip : Result Response × W → Result Response × W
  after_trip (err e, w) = (err (wrap "failed round trip: " e), w)
  after_trip (panic, w) = (panic, w)
  after_trip (ok resp, w) = (ok resp, w)

  -- One request on a connection of its own
  abbrev after_dial : Node → Request → Result (Unit {0}) × W → Result Response × W
  after_dial rn r (err e, w) = (err (wrap "failed creating transport: " e), w)
  after_dial rn r (panic, w) = (panic, w)
  after_dial rn r (ok _, w) = after_trip (net.round_trip rn.addr rn.public_key r w)

  abbrev call : Node → Request → W → Result Response × W
  call rn r w = after_dial rn r (net.dial rn.addr w)

  -- An error of `Decode` is dropped.
  abbrev node_of : Result Response × W → Result Node × W
  node_of (ok resp, w) = (ok (gob.decode_node resp.body).0, w)
  node_of (err e, w) = (err e, w)
  node_of (panic, w) = (panic, w)

  -- The response to `SetPredecessor` is dropped, its status too.
  abbrev done_of : Result Response × W → Result (Unit {0}) × W
  done_of (ok resp, w) = (ok tt, w)
  done_of (err e, w) = (err e, w)
  done_of (panic, w) = (panic, w)

  abbrev remote_request : Node → ℕ → Bytes → Request
  remote_request rn method body = record { header = remote_header rn; method = method; body = body }

  unfoldable pub remote_get_predecessor : Node → W → Result Node × W
  remote_get_predecessor rn w = node_of (call rn (remote_request rn get_predecessor_method []) w)

  abbrev not_encoded : Result (Unit {0}) × W → Result Response × W
  not_encoded (ok _, w) = (err (wrap "failed to encode request: " (cause "gob")), w)
  not_encoded (err e, w) = (err (wrap "failed creating transport: " e), w)
  not_encoded (panic, w) = (panic, w)

  -- The connection is open when the request is encoded.
  abbrev encoded_call : Node → ℕ → Option Bytes → W → Result Response × W
  encoded_call rn method (some body) w = call rn (remote_request rn method body) w
  encoded_call rn method none w = not_encoded (net.dial rn.addr w)

  unfoldable pub remote_successor : Node → Identifier → W → Result Node × W
  remote_successor rn id w = node_of (encoded_call rn get_successor_method (gob.encode_id id) w)

  unfoldable pub remote_set_predecessor : Node → Node → W → Result (Unit {0}) × W
  remote_set_predecessor rn node w =
      done_of (encoded_call rn set_predecessor_method (gob.encode_node node) w)

  -- The three calls together
  unfoldable pub peers : Peers W
  peers = record {
    get_predecessor = remote_get_predecessor;
    set_predecessor = remote_set_predecessor;
    successor = remote_successor;
  }
