-- ===== src/Protocol/Registration.antt =====
-- `UserRegistrationHandler` of protocol/handler.go: a user's public key is stored as a file of the ring.
pub mod Nodes
pub mod Ring
use peerstore.Base.{String, Option, none, some, Bytes, [], length}
use peerstore.Base.Result.{Error, cause, Result, ok, err, panic}
use peerstore.Base.Act.{Act, ◌>>=◌, pure, lift, ignore_error}
use peerstore.Models.Node.{Identifier, PublicKey, Node}
use peerstore.Crypto.Pem.{Codec, write_public_key}
use peerstore.Protocol.Message.{Header, zero_header, Request, Response, success, error_response}
use peerstore.Protocol.Message.{get_successor_method, post_public_key_method}
use peerstore.Protocol.Server.{Server}

-- The requests that the handler sends: `NewTransport` and `RoundTrip`, to an address and encrypted for a key,
-- with what they change elsewhere, and `encoding/gob` on what they carry
pub record Calls (W : Type 0) : Type 0 where
  pub ask : String → Option PublicKey → Request → Act W Response
  pub encode_id : Identifier → Bytes
  pub decode_node : Bytes → Option Node

-- Marshalling a nil key is a panic.
abbrev pem_of : Codec → Option PublicKey → Result Bytes
pem_of codec none = panic
pem_of codec (some key) = write_public_key codec key

abbrev decoded : Option Node → Result Node
decoded none = err (cause "gob")
decoded (some n) = ok n

abbrev pub registered : Response
registered = record { header = zero_header; status = success; body = [] }

module _ {W : Type 0} (codec : Codec) (out : Calls W) (s : Server) where
  -- The node is that of the request's `Key`, and the file's key is the user.
  abbrev pub place_request : Request → Request
  place_request r = record {
    header = record zero_header { from = s.id; key = r.header.from };
    method = get_successor_method;
    body = out.encode_id r.header.key;
  }

  abbrev pub key_post : Request → Bytes → Request
  key_post r pem = record {
    header = record zero_header { key = r.header.from; from = s.id; data_length = length pem };
    method = post_public_key_method;
    body = pem;
  }

  -- An error on the way is the error response. The status of the response to the post is not looked at.
  unfoldable pub user_registration_handler : Request → Act W Response
  user_registration_handler r = ignore_error error_response (
      lift (pem_of codec r.header.pub_key) >>= λ pem.
      out.ask s.addr (some s.private_key.public) (place_request r) >>= λ found.
      lift (decoded (out.decode_node found.body)) >>= λ node.
      out.ask node.addr node.public_key (key_post r pem) >>= λ _. pure registered)
