-- ===== src/Protocol/Server.antt =====
-- The server of protocol/server.go and the handlers of protocol/handler.go that keep its trusted nodes.
-- The locks make each access to the map one step, and a handler takes several: node_registration_handler is a handler
-- that runs alone, and Protocol.Server.Concurrent interleaves the steps of several.
pub mod Trust
pub mod Concurrent
pub mod Responds
use peerstore.Base.{ℕ, String, Option, none, some, List, [], ◌∷◌, Bytes, bytes_eq}
use peerstore.Base.Dict.{Dict, lookup, insert}
use peerstore.Base.Result.{Error, new, Result, ok, err, panic}
use peerstore.Models.Node.{Identifier, zero_identifier, PublicKey, PrivateKey, Node}
use peerstore.Crypto.Rsa.{Rsa, sign, verify}
use peerstore.Protocol.Message.{Request, Response, success, zero_header, error_response}

pub record Server : Type 0 where
  pub private_key : PrivateKey
  pub id : Identifier
  pub addr : String
  pub trusted_nodes : Dict Identifier Node

-- The composite literal of `NewServer` holds the server and then the peer, whatever the peer is. `id` is
-- SHA-1 of the address.
unfoldable pub new_server : PrivateKey → Identifier → String → Node → Server
new_server key id address peer = record {
  private_key = key;
  id = id;
  addr = address;
  trusted_nodes =
      insert peer.id peer
        ((id, record { id = id; addr = address; public_key = some key.public }) ∷ []);
}

unfoldable pub add_trusted_node : Node → Server → Server
add_trusted_node n s = record s { trusted_nodes = insert n.id n s.trusted_nodes }

abbrev pub found : Option Node → Result Node
found none = err (new "node does not exist in trustedNodes")
found (some n) = ok n

unfoldable pub get_trusted_node : Server → Identifier → Result Node
get_trusted_node s id = found (lookup id s.trusted_nodes)

abbrev values : Dict Identifier Node → List Node
values [] = []
values ((k, n) ∷ m) = n ∷ values m

-- Go lists the nodes in any order; here it is the order of their first insertion.
unfoldable pub get_all_trusted_nodes : Server → List Node
get_all_trusted_nodes s = values s.trusted_nodes

pub record NodeRegistrationResponse : Type 0 where
  pub signature : Bytes
  pub signed_by : Identifier
  pub nodes : List Node

-- `encoding/gob` on the values of the handlers. An encoder that fails leaves an empty buffer.
pub record Gob : Type 0 where
  pub encode_key : Option PublicKey → Bytes
  pub encode_registration : NodeRegistrationResponse → Bytes

abbrev pub requester : Request → Node
requester r = record {
  id = r.header.from;
  addr = r.header.from_addr;
  public_key = r.header.pub_key;
}

-- The reply and the server afterwards, or the end of the program
abbrev pub Reply : Type 0
Reply = Result (Server × Response)

module _ (c : Rsa) (gob : Gob) where
  unfoldable pub registration_reply : Identifier → Server → Bytes → Response
  registration_reply by s signature = record {
    header = zero_header;
    status = success;
    body =
        gob.encode_registration
          (record { signature = signature; signed_by = by; nodes = get_all_trusted_nodes s });
  }

  abbrev registered : Identifier → Server → Result Bytes → Reply
  registered by s (err e) = ok (s, error_response)
  registered by s panic = panic
  registered by s (ok signature) = ok (s, registration_reply by s signature)

  -- What both handlers do for a node that they accept
  abbrev accepted : Identifier → Server → Request → Reply
  accepted by s r =
      registered by (add_trusted_node (requester r) s)
        (sign c s.private_key (gob.encode_key r.header.pub_key))

  abbrev if_unknown : Server → Request → Result Node → Reply
  if_unknown s r (ok n) = ok (s, error_response)
  if_unknown s r (err e) = accepted s.id s r
  if_unknown s r panic = panic

  unfoldable pub node_registration_handler : Server → Request → Reply
  node_registration_handler s r = if_unknown s r (get_trusted_node s r.header.from)

  abbrev if_verified : Server → Request → Result (Unit {0}) → Reply
  if_verified s r (err e) = ok (s, error_response)
  if_verified s r panic = panic
  if_verified s r (ok _) = accepted zero_identifier s r

  -- The test is `err == nil`: with an error, `signer` is the zero node, whose key is nil.
  abbrev if_no_signer : Server → Request → Result Node → Reply
  if_no_signer s r (ok n) = ok (s, error_response)
  if_no_signer s r (err e) =
      if_verified s r (verify c none r.header.signature (gob.encode_key r.header.pub_key))
  if_no_signer s r panic = panic

  unfoldable pub node_trust_handler : Server → Request → Reply
  node_trust_handler s r = if_no_signer s r (get_trusted_node s r.header.signed_by)
