-- ===== src/Protocol/Connection/Rounds.antt =====
-- `handleConnection` of protocol/server.go: the loop over the messages of one connection.
pub mod Guarded
use peerstore.Base.{ℕ, Option, List, [], ◌∷◌, ◌++◌, Bytes}
use peerstore.Base.Result.{Error, Result, ok, err, panic}
use peerstore.Crypto.Pem.{Codec}
use peerstore.Protocol.Message.{Request, EncryptedMessage}
use peerstore.Protocol.Envelope.{Suite, Entropy, decrypt_and_decode_request}
use peerstore.Protocol.Server.{Server}
use peerstore.Protocol.Connection.{
  Lookups, Handler, Turn, next, closed, crashed, stuck, handle_request,
}

-- A message on the wire, and what the round that handles it gets from elsewhere: the answers to the server's own
-- requests, and what the two replies draw
pub record Round : Type 0 where
  pub wire : Bytes
  pub out : Lookups
  pub guards : Entropy
  pub handler : Entropy

module _ {W : Type 0} where
  -- After a round: on to the next message, or the end of the connection, with all that was written
  abbrev pub continued : List Bytes → (W → List Bytes → Turn W) → Turn W → Turn W
  continued before more (next w b) = more w (before ++ b)
  continued before more (closed w b) = closed w (before ++ b)
  continued before more crashed = crashed
  continued before more stuck = stuck

-- `server_of` is the server in the state: its trusted nodes may change from one message to the next.
module _ (c : Suite) (codec : Codec) {W : Type 0} (server_of : W → Server)
    (handlers : ℕ → Option (Handler W)) where
  abbrev received :
      Round
      → W
      → List Bytes
      → (W → List Bytes → Turn W)
      → Result (EncryptedMessage × Request × Bytes)
      → Turn W
  received x w before more (ok (em, r, raw)) =
      continued before more
        (handle_request c codec x.out (server_of w) em x.guards x.handler handlers r raw w)
  received x w before more (err e) = closed w before
  received x w before more panic = crashed

  -- A message that cannot be decoded ends the connection, as the end of the stream does.
  unfoldable pub handle_connection : List Round → W → List Bytes → Turn W
  handle_connection [] w before = closed w before
  handle_connection (x ∷ xs) w before =
      received x w before (λ w' sent. handle_connection xs w' sent)
        (decrypt_and_decode_request c (server_of w).private_key x.wire)
