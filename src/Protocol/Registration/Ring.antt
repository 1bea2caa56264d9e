-- ===== src/Protocol/Registration/Ring.antt =====
-- Registration and authentication of a user, on a ring of servers that keep their own files.
use peerstore.Base.{
  inl, inr, ◌≡◌, ◌≢◌, refl, String, string_eq, bytes_eq, none, some, Bytes, [], nat_eq,
}
use peerstore.Base.Dict.{lookup}
use peerstore.Base.Result.{Error, ok, err}
use peerstore.Models.Node.{PrivateKey}
use peerstore.Crypto.Rsa.{IsRsa, sign}
use peerstore.Crypto.Rsa.Laws.{verify-sign}
use peerstore.Crypto.Pem.{Codec, IsCodec, read_public_key, read_blocks}
use peerstore.Crypto.Pem.Laws.{read-write_keys}
use peerstore.Protocol.Message.{Request, EncryptedMessage}
use peerstore.Protocol.Envelope.{Suite}
use peerstore.Protocol.Server.{Server, get_trusted_node}
use peerstore.Protocol.Connection.{admitted, refused, user_accepts}
use peerstore.File.Storage.{get}
use peerstore.File.Handlers.{get_public_key_handler}
use peerstore.File.Handlers.Reading.{read_rest-some}
use peerstore.Protocol.Registration.{registered, user_registration_handler}
use peerstore.Protocol.Registration.Nodes.{
  Ring, Places, Trusts, ask, calls, lookups, Known, trusted_or_not,
  user_registration_handler-stores, user_registration_handler-lost,
  user_registration_handler-registered,
}

module _ (p : Places) where
  module _ (c : Suite) (codec : Codec) (asked : String) (em : EncryptedMessage) (k : PrivateKey)
      (bytes : Bytes) (r q : Request) (raw : Bytes) (w : Ring) (laws : IsCodec codec)
      (own : r.header.pub_key ≡ some k.public)
      (marshals : codec.marshal_public k.public ≡ some bytes) where
    abbrev here : Server
    here = p.server_at asked

    -- A server that trusts the asked one, and keeps no file of the sender, or one that does not trust it
    refused_without_key :
        (v : Ring)
        → lookup q.header.from (v (p.place q.header.key).addr).disk ≡ none
        → user_accepts c codec (lookups p v) here em q raw ≡ refused []
    unfolding user_accepts ask get_public_key_handler get read_public_key read_blocks Known
    refused_without_key v absent =
        let (n, self) = p.trusts_self asked in
        elim (trusted_or_not p codec asked (p.place q.header.key).addr here.id) [
          | inl (m, trusted) ↦ rw (
            p.server_at-addr asked,
            self,
            p.decode-encode_id q.header.key,
            p.decode-encode_node q.header.key,
            trusted,
            absent,
          )
          | inr (x, unknown) ↦ rw (
            p.server_at-addr asked,
            self,
            p.decode-encode_id q.header.key,
            p.decode-encode_node q.header.key,
            unknown,
          )
        ]

    -- Where the libraries keep their promises and encode the key: a user registers a key at a server, and later
    -- signs a request to it with the key. If the ring places the keys of the two requests' headers on servers of the
    -- same address, the server there trusts the one that is asked, and no disk fails, the registration succeeds and
    -- the later request is admitted.
    pub registered_user_admitted :
        q.header.from ≡ r.header.from
        → IsRsa c.rsa
        → (p.place q.header.key).addr ≡ (p.place r.header.key).addr
        → Trusts p (p.place r.header.key).addr here.id
        → sign c.rsa k raw ≡ ok em.header.signature
        → let after = (user_registration_handler codec (calls p) here r w).1 in
          ((user_registration_handler codec (calls p) here r w).0 ≡ ok registered)
          × (user_accepts c codec (lookups p after) here em q raw ≡ admitted [])
    unfolding user_accepts ask get_public_key_handler get
    registered_user_admitted user is_rsa same (m, trusted) signed =
        let (pem, written, read, _, _) = read-write_keys codec laws k bytes marshals in
        let (n, self) = p.trusts_self asked in
        let (after, done, stored, others) =
          user_registration_handler-stores p codec asked r w k.public pem own written
            (m, trusted) in
        rw done (
          refl,
          rw (
            p.server_at-addr asked,
            self,
            p.decode-encode_id q.header.key,
            p.decode-encode_node q.header.key,
            same,
            trusted,
            user,
            stored,
            read_rest-some pem,
            read,
            verify-sign c.rsa is_rsa k raw em.header.signature signed,
          ),
        )

    -- Where the libraries keep their promises and encode the key: a user registers a key, and the
    -- registration succeeds. A later request of any user is refused, whoever signed it, if the ring
    -- places the keys of the two requests' headers on servers of different addresses and the one of
    -- the later request has no file of its sender.
    pub registered_user_refused :
        (p.place r.header.key).addr ≢ (p.place q.header.key).addr
        → lookup q.header.from (w (p.place q.header.key).addr).disk ≡ none
        → let after = (user_registration_handler codec (calls p) here r w).1 in
          ((user_registration_handler codec (calls p) here r w).0 ≡ ok registered)
          × (user_accepts c codec (lookups p after) here em q raw ≡ refused [])
    registered_user_refused apart absent =
        let (pem, written, read, _, _) = read-write_keys codec laws k bytes marshals in
        let (after, done, others) =
          user_registration_handler-registered p codec asked r w k.public pem own written in
        rw done (refl, refused_without_key after (rw (others _ apart) absent))

    -- Where the libraries keep their promises and encode the key, and the server that the key is placed on does not
    -- trust the one that is asked: the registration succeeds, nothing is stored, and a later request of a user of
    -- whom the server of its key has no file is refused.
    pub untrusted_registration_lost :
        (x : Error)
        → get_trusted_node (p.server_at (p.place r.header.key).addr) here.id ≡ err x
        → lookup q.header.from (w (p.place q.header.key).addr).disk ≡ none
        → (user_registration_handler codec (calls p) here r w ≡ (ok registered, w))
          × (user_accepts c codec (lookups p w) here em q raw ≡ refused [])
    untrusted_registration_lost x unknown absent =
        let (pem, written, _, _, _) = read-write_keys codec laws k bytes marshals in
        (
          user_registration_handler-lost p codec asked r w k.public pem x own written unknown,
          refused_without_key w absent,
        )
