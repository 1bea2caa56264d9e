-- ===== src/Protocol/Rpc.antt =====
-- A client's `RoundTrip` of protocol/transport.go against `handleConnection` of protocol/server.go.
pub mod Served
use peerstore.Base.{
  ℕ, String, true, Option, none, some, List, [], ◌∷◌, Bytes, ◌≡◌, ◌==◌, nat_eq, if◌then◌else◌,
}
use peerstore.Base.Result.{Result, ok, err, panic}
use peerstore.Models.Node.{Node}
use peerstore.Crypto.Pem.{Codec}
use peerstore.Protocol.Message.{
  Request, Response, EncryptedMessage, user_type, user_registration_method, get_successor_method,
}
use peerstore.Protocol.Envelope.{Suite, Entropy, decrypt_and_decode_request}
use peerstore.Protocol.Server.{Server}
use peerstore.Protocol.Registration.{Calls}
use peerstore.Protocol.Connection.{Lookups, Handler, Turn, closed, successor_request, key_request}
use peerstore.Protocol.Connection.Rounds.{Round, handle_connection}
use peerstore.Protocol.Transport.{Socket}

-- One message on a connection to the server. The requests that the server itself sends while it authenticates a user
-- may come back to it on another connection, so that they change the state before the handler runs.
module _ (c : Suite) (codec : Codec) {W : Type 0} (server_of : W → Server)
    (handlers : ℕ → Option (Handler W)) (calls : Calls W) (guards handler : Entropy) where
  -- What is answered in the state `w` to the first request, and in `v` to the second
  abbrev pub seen : W → W → Lookups
  seen w v = record {
    ask = λ addr key r.
        if r.method == get_successor_method
        then (calls.ask addr key r w).0
        else (calls.ask addr key r v).0;
    encode_id = calls.encode_id;
    decode_node = calls.decode_node;
  }

  abbrev after_key : EncryptedMessage → Request → Server → Option Node → W → W
  after_key em r s none v = v
  after_key em r s (some n) v =
      (calls.ask n.addr n.public_key (key_request c codec (seen v v) s em r) v).1

  abbrev after_successor : EncryptedMessage → Request → Server → Result Response → W → W
  after_successor em r s (ok place) v = after_key em r s (calls.decode_node place.body) v
  after_successor em r s (err e) v = v
  after_successor em r s panic v = v

  -- What the two requests of the server are answered, and the state after them
  abbrev looking_up : EncryptedMessage → Request → Server → W → Lookups × W
  looking_up em r s w =
      let (found, v) =
        calls.ask s.addr (some s.private_key.public) (successor_request c codec (seen w w) s em r)
          w in
      (seen w v, after_successor em r s found v)

  abbrev if_handled : Option (Handler W) → EncryptedMessage → Request → Server → W → Lookups × W
  if_handled none em r s w = (seen w w, w)
  if_handled (some h) em r s w = looking_up em r s w

  -- They are sent for a user, but not for a registration, nor where no handler is called.
  unfoldable pub authenticating : Result (EncryptedMessage × Request × Bytes) → W → Lookups × W
  authenticating (ok (em, r, raw)) w =
      if em.header.caller == user_type
      then (if r.method == user_registration_method
          then (seen w w, w)
          else if_handled (handlers r.method) em r (server_of w) w)
      else (seen w w, w)
  authenticating (err e) w = (seen w w, w)
  authenticating panic w = (seen w w, w)

  abbrev pub serve_in : Bytes → Lookups × W → Turn W
  serve_in wire (out, v) =
      handle_connection c codec server_of handlers
        (record { wire = wire; out = out; guards = guards; handler = handler } ∷ []) v []

  abbrev pub serve : Bytes → W → Turn W
  serve wire w =
      serve_in wire (authenticating (decrypt_and_decode_request c (server_of w).private_key wire) w)

-- The connection between a client and a server, in a state `L` that has the server's: what the client writes
-- reaches the server, and the client then reads the server's first reply, or the end of the stream.
pub record Connects {L W : Type 0} (s : Socket L) (addr : String) (serves : Bytes → W → Turn W)
    : Type 0 where
  pub far : L → W
  pub answered :
      (wire reply : Bytes) (more : List Bytes) (l : L) (w : W)
      → serves wire (far l) ≡ closed w (reply ∷ more)
      → (m n : L) × (s.write addr wire l ≡ (true, m))
        × (s.read addr m ≡ (some reply, n))
        × (far n ≡ w)
  pub silent :
      (wire : Bytes) (l : L) (w : W)
      → serves wire (far l) ≡ closed w []
      → (m n : L) × (s.write addr wire l ≡ (true, m)) × (s.read addr m ≡ (none, n)) × (far n ≡ w)
