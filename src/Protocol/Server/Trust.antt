-- ===== src/Protocol/Server/Trust.antt =====
-- Who becomes a trusted node.
use peerstore.Base.{◌≡◌, refl, Bytes, bytes_eq}
use peerstore.Base.Dict.{lookup-insert_self, lookup-insert_ne}
use peerstore.Base.Result.{Error, ok, err, panic}
use peerstore.Models.Node.{Identifier, Node}
use peerstore.Crypto.Rsa.{Rsa, sign, verify}
use peerstore.Protocol.Message.{Request, Response, success, error_response}
use peerstore.Protocol.Server.{Server, Gob, add_trusted_node, get_trusted_node, requester}
use peerstore.Protocol.Server.{node_registration_handler, node_trust_handler, registration_reply}

-- A node that registers under an identifier nobody has, when the server's key signs, is answered with
-- success. From then on it is trusted under that identifier with the address and the key it named, every
-- other identifier means what it meant, and a second registration of it is an error that changes nothing.
pub registration_trusts :
    (c : Rsa) (gob : Gob) (s : Server) (r : Request) (e : Error) (signature : Bytes)
    → get_trusted_node s r.header.from ≡ err e
    → sign c s.private_key (gob.encode_key r.header.pub_key) ≡ ok signature
    → (s' : Server) × (resp : Response) × (node_registration_handler c gob s r ≡ ok (s', resp))
      × (resp.status ≡ success)
      × (get_trusted_node s' r.header.from ≡ ok (requester r))
      × ((k : Identifier) → (r.header.from ≡ k → ⊥) → get_trusted_node s' k ≡ get_trusted_node s k)
      × (node_registration_handler c gob s' r ≡ ok (s', error_response))
unfolding node_registration_handler get_trusted_node add_trusted_node registration_reply
registration_trusts c gob s r e signature unknown signed =
    let back = lookup-insert_self r.header.from (requester r) s.trusted_nodes in
    let later = add_trusted_node (requester r) s in
    (
      later,
      registration_reply c gob s.id later signature,
      rw (unknown, signed),
      refl,
      rw back,
      λ k ne. rw (lookup-insert_ne r.header.from k (requester r) s.trusted_nodes ne),
      rw back,
    )

-- A node that is vouched for never becomes trusted: with a signer that the server trusts the answer is an
-- error and nothing changes, and with any other signer the program ends.
pub node_trust_never :
    (c : Rsa) (gob : Gob) (s : Server) (r : Request)
    → ((n : Node)
        → get_trusted_node s r.header.signed_by ≡ ok n
        → node_trust_handler c gob s r ≡ ok (s, error_response))
      × ((e : Error)
          → get_trusted_node s r.header.signed_by ≡ err e
          → node_trust_handler c gob s r ≡ panic)
unfolding node_trust_handler verify
node_trust_never c gob s r = (λ n h. rw h, λ e h. rw h)
