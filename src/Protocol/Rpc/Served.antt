-- ===== src/Protocol/Rpc/Served.antt =====
-- What a client gets of a server.
use peerstore.Base.{
  ℕ, String, ◌≡◌, ◌≢◌, inl, true, refl, ap, false, arith, ◌==◌, nat_eq, ◌∙◌, Option, some, [], ◌∷◌,
  Bytes,
}
use peerstore.Base.Result.{Error, Result, ok, err}
use peerstore.Models.Node.{Node}
use peerstore.Crypto.Aes.{IsCbc}
use peerstore.Crypto.Rsa.{IsRsa, verify}
use peerstore.Crypto.Pem.{Codec, read_public_key}
use peerstore.Protocol.Message.{
  Request, Response, EncryptedMessage, validate_request, validate_response, IsResponse, node_type,
  user_type, user_registration_method, error_response, node_registration_method,
}
use peerstore.Protocol.Envelope.{
  Suite, Entropy, encrypt_and_encode, decrypt_and_decode_request, decrypt_and_decode_response,
}
use peerstore.Protocol.Envelope.Sendable.{Sendable, delivered}
use peerstore.Protocol.Server.{Server, get_trusted_node}
use peerstore.Protocol.Connection.{
  Lookups, Handler, successor_request, key_request, admitted, closed, accepts, reply,
  handle_request,
}
use peerstore.Protocol.Registration.{Calls}
use peerstore.Protocol.Connection.Access.{node_admitted_iff, unproven_node_closed}
use peerstore.Protocol.Connection.Users.{Fetched, known_user_admitted}
use peerstore.Protocol.Connection.Rounds.{handle_connection}
use peerstore.Protocol.Transport.{Socket, Transport, round_trip}
use peerstore.Protocol.Rpc.{seen, authenticating, serve, Connects}

module _ (c : Suite) (codec : Codec) {L W : Type 0} (server_of : W → Server)
    (handlers : ℕ → Option (Handler W)) (calls : Calls W) (guards handler : Entropy) (s : Socket L)
    (addr : String)
    (link : Connects s addr (serve c codec server_of handlers calls guards handler)) where
  -- A reply that the client decrypts is what the round trip returns.
  round_trip-replied :
      (e : Entropy) (t : Transport) (r : Request) (l : L) (wire replied raw : Bytes) (w : W)
      (em : EncryptedMessage) (resp : Response)
      → t.conn ≡ some addr
      → encrypt_and_encode c c.request e r t.caller t.peer_key t.from t.self_key ≡ ok wire
      → serve c codec server_of handlers calls guards handler wire (link.far l)
        ≡ closed w (replied ∷ [])
      → decrypt_and_decode_response c t.self_key replied ≡ ok (em, resp, raw)
      → (n : L) × (round_trip c s e t r l ≡ (ok resp, n)) × (link.far n ≡ w)
  unfolding round_trip
  round_trip-replied e t r l wire replied raw w em resp conn enc served dec =
      let (m, n, wrote, read, there) = link.answered wire replied [] l w served in
      (n, rw (conn, enc, wrote, read, dec), there)

  -- A message that is admitted is answered with what its handler returns, in the state that the lookups left.
  serve-admitted :
      (w v w' : W) (out : Lookups) (wire raw b : Bytes) (em : EncryptedMessage) (r : Request)
      (h : Handler W) (resp : Response)
      → decrypt_and_decode_request c (server_of w).private_key wire ≡ ok (em, r, raw)
      → authenticating c codec server_of handlers calls guards handler (ok (em, r, raw)) w
        ≡ (out, v)
      → decrypt_and_decode_request c (server_of v).private_key wire ≡ ok (em, r, raw)
      → handlers r.method ≡ some h
      → accepts c codec out (server_of v) em guards r raw ≡ admitted []
      → h em.header.pub_key r v ≡ ok (w', resp)
      → reply c codec out (server_of v) em handler resp ≡ ok b
      → serve c codec server_of handlers calls guards handler wire w ≡ closed w' (b ∷ [])
  unfolding handle_connection handle_request
  serve-admitted w v w' out wire raw b em r h resp dec looked again known a ran replied =
      rw (dec, looked, again, known, a, ran, replied)

  -- A request that the server's guards let through gets the handler's response.
  module _ (is_cbc : IsCbc c.cbc) (is_rsa : IsRsa c.rsa) (e : Entropy) (t : Transport) (r : Request)
      (l : L) (conn : t.conn ≡ some addr)
      (peer : t.peer_key ≡ some (server_of (link.far l)).private_key.public)
      (there : Sendable c c.request e r t.caller t.from t.self_key
        (server_of (link.far l)).private_key)
      (valid : validate_request r ≡ ok tt) where
    abbrev near : Server
    near = server_of (link.far l)

    admitted_served :
        (h : Handler W) (resp : Response) (out : Lookups) (v w' : W)
        → ((em : EncryptedMessage)
            → em.header.caller ≡ t.caller
            → authenticating c codec server_of handlers calls guards handler
                (ok (em, r, there.raw))
                (link.far l)
              ≡ (out, v))
        → server_of v ≡ near
        → ((em : EncryptedMessage)
            → em.header.caller ≡ t.caller
            → em.header.pub_key ≡ some t.self_key.public
            → verify c.rsa em.header.pub_key em.header.signature there.raw ≡ ok tt
            → accepts c codec out near em guards r there.raw ≡ admitted [])
        → handlers r.method ≡ some h
        → h (some t.self_key.public) r v ≡ ok (w', resp)
        → IsResponse resp
        → Sendable c c.response handler resp node_type near.id near.private_key t.self_key
        → (n : L) × (round_trip c s e t r l ≡ (ok resp, n)) × (link.far n ≡ w')
    unfolding decrypt_and_decode_request decrypt_and_decode_response
    admitted_served h resp out v w' looks same admits known ran answer back =
        let (em, dec, caller, _, key, verified) =
          delivered c c.request "failed to validate request" validate_request e r t.caller t.from
            t.self_key near.private_key is_cbc is_rsa there valid in
        let (em', dec', _, _, _, _) =
          delivered c c.response "failure validating response: " validate_response handler resp
            node_type near.id near.private_key t.self_key is_cbc is_rsa back answer in
        let enc : encrypt_and_encode c c.request e r t.caller t.peer_key t.from t.self_key
            ≡ ok there.wire =
          rw peer there.sent in
        round_trip-replied e t r l there.wire back.wire back.raw w' em' resp conn enc
          (serve-admitted (link.far l) v w' out there.wire there.raw back.wire em r h resp dec
            (looks em caller) (rw same dec) known (rw same (admits em caller key verified))
            (rw key ran) (rw (same, key) back.sent))
          dec'

    -- For a node nothing is looked up.
    node-authenticating :
        (em : EncryptedMessage)
        → em.header.caller ≡ node_type
        → authenticating c codec server_of handlers calls guards handler
            (ok (em, r, there.raw))
            (link.far l)
          ≡ (
            seen c codec server_of handlers calls guards handler (link.far l) (link.far l),
            link.far l,
          )
    unfolding authenticating
    node-authenticating em caller = rw caller

    -- Over a connection that works, with gob and the encryption working for both messages, the round trip of a valid
    -- request in the name of a node that the server trusts, other than a registration of a node, whose handler
    -- answers with a valid status, returns exactly the handler's response, and the handler's effect is the only one on
    -- the server's state. The sender may be anyone who has a key and calls itself a node.
    pub trusted_node_served :
        (h : Handler W) (resp : Response) (w' : W) (n : Node)
        → t.caller ≡ node_type
        → r.method ≢ node_registration_method
        → get_trusted_node near r.header.from ≡ ok n
        → handlers r.method ≡ some h
        → h (some t.self_key.public) r (link.far l) ≡ ok (w', resp)
        → IsResponse resp
        → Sendable c c.response handler resp node_type near.id near.private_key t.self_key
        → (l' : L) × (round_trip c s e t r l ≡ (ok resp, l')) × (link.far l' ≡ w')
    trusted_node_served h resp w' n caller method trusted known ran answer back =
        admitted_served h resp _ (link.far l) w' (λ em type. node-authenticating em (type ∙ caller))
          refl
          (λ em type key verified.
            (node_admitted_iff c codec _ near em r there.raw guards (type ∙ caller) method).1
              ((n, trusted), verified))
          known ran answer back

    -- Over a connection that works, with gob and the encryption working for both messages: a user sends a valid
    -- request, other than a registration. The server asks itself for a node, and that node for the user's key; the
    -- answers name the node and have the key with which the user signs, and the requests, which may come back to the
    -- server and change its state, leave its keys and trusted nodes. The handler then answers with a valid status in
    -- the state that these requests left. The round trip returns exactly the handler's response, and the server's
    -- state is the one that the handler leaves.
    pub known_user_served :
        (h : Handler W) (place file resp : Response) (n : Node) (v v' w' : W)
        → t.caller ≡ user_type
        → r.method ≢ user_registration_method
        → ((em : EncryptedMessage)
            → calls.ask near.addr
                (some near.private_key.public)
                (successor_request c codec
                  (seen c codec server_of handlers calls guards handler (link.far l) (link.far l))
                  near
                  em
                  r)
                (link.far l)
              ≡ (ok place, v))
        → calls.decode_node place.body ≡ some n
        → ((em : EncryptedMessage)
            → calls.ask n.addr n.public_key
                (key_request c codec
                  (seen c codec server_of handlers calls guards handler v v)
                  near
                  em
                  r)
                v
              ≡ (ok file, v'))
        → read_public_key codec file.body ≡ some (ok t.self_key.public)
        → server_of v' ≡ near
        → handlers r.method ≡ some h
        → h (some t.self_key.public) r v' ≡ ok (w', resp)
        → IsResponse resp
        → Sendable c c.response handler resp node_type near.id near.private_key t.self_key
        → (l' : L) × (round_trip c s e t r l ≡ (ok resp, l')) × (link.far l' ≡ w')
    known_user_served h place file resp n v v' w' caller method placed decoded fetched read same
          known ran answer back =
        admitted_served h resp (seen c codec server_of handlers calls guards handler (link.far l) v)
          v' w' (λ em type. user-authenticating em (type ∙ caller)) same
          (λ em type key verified.
            known_user_admitted c codec _ near em r there.raw guards t.self_key.public
              (type ∙ caller) method
              (unfold Fetched in
                (
                  place,
                  n,
                  file,
                  ap (λ (x : Result Response × W). x.0) (placed em),
                  decoded,
                  ap (λ (x : Result Response × W). x.0) (fetched em),
                  read,
                ))
              (rw key at verified))
          known ran answer back
      where
        user-authenticating :
            (em : EncryptedMessage)
            → em.header.caller ≡ user_type
            → authenticating c codec server_of handlers calls guards handler
                (ok (em, r, there.raw))
                (link.far l)
              ≡ (seen c codec server_of handlers calls guards handler (link.far l) v, v')
        user-authenticating em type =
            let other : (r.method == user_registration_method) ≡ false = ground arith in
            let is_user : (em.header.caller == user_type) ≡ true = rw type in
            unfold authenticating in
            rw (is_user, other, known, placed em, decoded)
              (ap
                (λ (x : Result Response × W).
                  (seen c codec server_of handlers calls guards handler (link.far l) v, x.1))
                (fetched em))

    -- Over a connection that works, with gob and the encryption working for both messages, the round trip of a valid
    -- request in the name of a node that the server does not trust, for a method that has a handler and is no
    -- registration of a node, returns the error response and no error, and the server's state is as it was.
    pub untrusted_node_told :
        (h : Handler W) (x : Error)
        → t.caller ≡ node_type
        → r.method ≢ node_registration_method
        → get_trusted_node near r.header.from ≡ err x
        → handlers r.method ≡ some h
        → Sendable c c.response guards error_response node_type near.id near.private_key t.self_key
        → (l' : L) × (round_trip c s e t r l ≡ (ok error_response, l')) × (link.far l' ≡ link.far l)
    unfolding decrypt_and_decode_request decrypt_and_decode_response validate_response
        handle_connection
    untrusted_node_told h x caller method untrusted known back =
        let (em, dec, type, _, key, _) =
          delivered c c.request "failed to validate request" validate_request e r t.caller t.from
            t.self_key near.private_key is_cbc is_rsa there valid in
        let (em', dec', _, _, _, _) =
          delivered c c.response "failure validating response: " validate_response guards
            error_response node_type near.id near.private_key t.self_key is_cbc is_rsa back refl in
        let enc : encrypt_and_encode c c.request e r t.caller t.peer_key t.from t.self_key
            ≡ ok there.wire =
          rw peer there.sent in
        let shut =
          unproven_node_closed c codec
            (seen c codec server_of handlers calls guards handler (link.far l) (link.far l)) near em
            r there.raw guards handler handlers h (link.far l) x back.wire (type ∙ caller) method
            known (inl untrusted) (rw key back.sent) in
        round_trip-replied e t r l there.wire back.wire back.raw (link.far l) em' error_response
          conn enc (rw (dec, node-authenticating em (type ∙ caller), dec, shut)) dec'
