-- ===== src/Client/Requests.antt =====
-- The requests of cmd/peerstore/client/main.go: `createTransport`, `getNode`, `getKey` and
-- `fileToKeyIdentifier`, over a network, the files of the client's machine, and encodings that are parameters.
use peerstore.Base.{
  ℕ, String, Bool, true, false, Option, none, some, [], ◌++◌, Bytes, ◌==◌, nat_eq, if◌then◌else◌,
}
use peerstore.Base.Result.{Error, new, wrap, cause, Result, ok, err, panic}
use peerstore.Base.Act.{Act}
use peerstore.Models.Node.{Identifier, PublicKey, PrivateKey, Node, zero_node}
use peerstore.Models.Clock.{increment_clock}
use peerstore.Models.TransactionLog.{TransactionLog}
use peerstore.Protocol.Message.{
  Header, zero_header, Request, Response, user_type, error, get_successor_method, get_file_method,
}
use peerstore.Protocol.Transport.{Transport, new_transport}

-- `NewTransport` dials, and `RoundTrip` sends a request over what it made.
pub record Net (W : Type 0) : Type 0 where
  pub dial : String → W → Bool × W
  pub trip : Transport → Request → W → Result Response × W

-- The files of the client's machine: `ioutil.ReadFile`, `ioutil.WriteFile`, `os.Remove`, and `os.MkdirAll` of a
-- file's directory. Each may fail. The Lamport clock of the process is with them.
pub record Machine (W : Type 0) : Type 0 where
  pub read_file : String → W → Option Bytes
  pub write_file : String → Bytes → W → Bool × W
  pub remove_file : String → W → W
  pub make_dir : String → W → W
  pub clock : W → ℕ
  pub set_clock : ℕ → W → W

-- SHA-1, gob, and the bytes of a string. `decode_node` is the value of the variable after `Decode`, and
-- whether `Decode` succeeded.
pub record Codecs : Type 0 where
  pub sha1 : Bytes → Identifier
  pub text : String → Bytes
  pub gob_key : PublicKey → Bytes
  pub encode_id : Identifier → Bytes
  pub decode_node : Bytes → Node × Bool
  pub encode_log : TransactionLog → Option Bytes
  pub decode_log : Bytes → Option TransactionLog

-- `models.IncrementClock`
abbrev pub tick : {W : Type 0} → Machine W → ℕ → Act W (Unit {0})
tick disk base w = (ok tt, disk.set_clock (increment_clock (disk.clock w) base) w)

-- `fileToKeyIdentifier`
unfoldable pub file_to_key_identifier : Codecs → String → Identifier
file_to_key_identifier g name = g.sha1 (g.text name)

-- A user's identifier, and that of the user's transaction log
unfoldable pub user_id : Codecs → PublicKey → Identifier
user_id g key = g.sha1 (g.gob_key key)

unfoldable pub log_id : Codecs → PublicKey → Identifier
log_id g key = g.sha1 (g.gob_key key ++ g.text "-transaction-log")

abbrev pub user_header : Identifier → Identifier → Header
user_header id key = record zero_header { caller = user_type; from = id; key = key }

abbrev pub successor_request : Codecs → Identifier → Identifier → Request
successor_request g key id = record {
  header = user_header id key;
  method = get_successor_method;
  body = g.encode_id key;
}

abbrev pub get_request : Identifier → Identifier → Request
get_request key id = record { header = user_header id key; method = get_file_method; body = [] }

abbrev made : Transport × Option Error → Result Transport
made (t, none) = ok t
made (t, some e) = err e

module _ {W : Type 0} (net : Net W) where
  -- `createTransport`, whose callers stop on an error
  unfoldable pub create_transport : Identifier → Node → PrivateKey → Act W Transport
  create_transport id node key w =
      let (t, w') = new_transport net.dial node.addr user_type id node.public_key key w in
      (made t, w')

  -- `NewTransport` where an error is only logged: the transport may have no connection.
  unfoldable pub open_transport :
      String → ℕ → Identifier → Option PublicKey → PrivateKey → Act W Transport
  open_transport addr caller id peer_key key w =
      let (t, w') = new_transport net.dial addr caller id peer_key key w in (ok t.0, w')

  abbrev node_after : Node × Bool → Node × Option Error
  node_after (n, true) = (n, none)
  node_after (n, false) = (n, some (wrap "failed to deserialize node data" (cause "gob")))

  abbrev node_of : Codecs → Result Response × W → Result (Node × Option Error) × W
  node_of g (ok resp, w) = (ok (node_after (g.decode_node resp.body)), w)
  node_of g (err e, w) = (ok (zero_node, some (wrap "failed round trip to find successor" e)), w)
  node_of g (panic, w) = (panic, w)

  -- `getNode`: the node comes with the error, and two of its callers go on with it.
  unfoldable pub get_node :
      Codecs → Identifier → Identifier → Transport → Act W (Node × Option Error)
  get_node g key id t w = node_of g (net.trip t (successor_request g key id) w)

  abbrev status_checked : Result Response × W → Result Response × W
  status_checked (ok resp, w) =
      (if resp.status == error then err (new "protocol failure") else ok resp, w)
  status_checked (err e, w) = (err (wrap "failed round trip" e), w)
  status_checked (panic, w) = (panic, w)

  -- `getKey`
  unfoldable pub get_key : Identifier → Identifier → Transport → Act W Response
  get_key key id t w = status_checked (net.trip t (get_request key id) w)
