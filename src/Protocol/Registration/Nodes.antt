-- ===== src/Protocol/Registration/Nodes.antt =====
-- A ring of servers that keep their own files: a server that is asked names the node of an identifier, and each node
-- runs the handlers of file/handlers.go, for the nodes that it trusts. What UserRegistrationHandler does on it.
use peerstore.Base.{
  ◌⊎◌, inl, inr, ◌≡◌, ◌≢◌, refl, String, string_eq, bytes_eq, ==-self, beq_ne, Option, none, some,
  Bytes, ◌==◌, nat_eq, if◌then◌else◌, true,
}
use peerstore.Base.Dict.{lookup, insert, erase, lookup-insert_self}
use peerstore.Base.Result.{Error, cause, Result, ok, err}
use peerstore.Base.Act.{Act}
use peerstore.Models.Node.{Identifier, PublicKey, Node}
use peerstore.Models.Clock.{increment_clock}
use peerstore.Crypto.Pem.{Codec, write_public_key}
use peerstore.Protocol.Message.{Request, Response, zero_header, success, error_response}
use peerstore.Protocol.Message.{get_successor_method, get_public_key_method, post_public_key_method}
use peerstore.Protocol.Server.{Server, get_trusted_node, found}
use peerstore.Protocol.Connection.{Lookups}
use peerstore.File.Storage.{no_faults}
use peerstore.File.Storage.Laws.{post-no_faults}
use peerstore.File.Handlers.{
  Files, Outcome, respond, get_public_key_handler, post_public_key_handler,
}
use peerstore.Protocol.Registration.{Calls, registered, user_registration_handler, place_request}

-- The files of the server at each address
abbrev pub Ring : Type 0
Ring = String → Files

abbrev update : String → Files → Ring → Ring
update addr files w other = if addr == other then files else w other

-- A handler that panics ends its server.
abbrev answered : Outcome → Result Response
answered (respond resp) = ok resp
answered Outcome.panic = err (cause "EOF")
answered Outcome.stuck = err (cause "EOF")

abbrev changed : String → Ring → Outcome × Files → Result Response × Ring
changed addr w (o, files) = (answered o, update addr files w)

-- The server at each address with the nodes that it trusts, the node of an identifier, and gob. A server starts with
-- an entry for itself, and no entry is ever removed.
pub record Places : Type 0 where
  pub server_at : String → Server
  pub place : Identifier → Node
  pub encode_id : Identifier → Bytes
  pub decode_id : Bytes → Identifier
  pub encode_node : Node → Bytes
  pub decode_node : Bytes → Option Node
  pub server_at-addr : (addr : String) → (server_at addr).addr ≡ addr
  pub trusts_self :
      (addr : String) → (n : Node) × (get_trusted_node (server_at addr) (server_at addr).id ≡ ok n)
  pub decode-encode_id : (id : Identifier) → decode_id (encode_id id) ≡ id
  pub decode-encode_node :
      (id : Identifier) → decode_node (encode_node (place id)) ≡ some (place id)

-- The server at the address trusts the node of this identifier.
abbrev pub Trusts : Places → String → Identifier → Type 0
Trusts p addr id = (n : Node) × (get_trusted_node (p.server_at addr) id ≡ ok n)

module _ (p : Places) where
  abbrev handled : String → Request → Ring → Result Response × Ring
  handled addr r w =
      if r.method == get_successor_method
      then (
        ok (record {
          header = zero_header;
          status = success;
          body = p.encode_node (p.place (p.decode_id r.body));
        }),
        w,
      )
      else if r.method == post_public_key_method
      then changed addr w (post_public_key_handler no_faults r (w addr))
      else if r.method == get_public_key_method
      then changed addr w (get_public_key_handler no_faults r (w addr))
      else (ok error_response, w)

  abbrev if_trusted : Result Response × Ring → Ring → Result Node → Result Response × Ring
  if_trusted x w (ok n) = x
  if_trusted x w (err e) = (ok error_response, w)
  if_trusted x w Result.panic = (err (cause "EOF"), w)

  -- A request of a node, which signs what it sends: `handleConnection` answers a node that it does not trust with
  -- an error.
  unfoldable pub ask : String → Option PublicKey → Request → Act Ring Response
  ask addr key r w =
      if_trusted (handled addr r w) w (get_trusted_node (p.server_at addr) r.header.from)

  abbrev pub calls : Calls Ring
  calls = record { ask = ask; encode_id = p.encode_id; decode_node = p.decode_node }

  -- What a server finds out about a user, in one state of the ring
  abbrev pub lookups : Ring → Lookups
  lookups w = record {
    ask = λ addr key r. (ask addr key r w).0;
    encode_id = p.encode_id;
    decode_node = p.decode_node;
  }

  module _ (codec : Codec) (asked : String) where
    abbrev s : Server
    s = p.server_at asked

    place_found :
        (r : Request) (w : Ring)
        → ask s.addr (some s.private_key.public) (place_request codec calls s r) w ≡ (
          ok (record {
            header = zero_header;
            status = success;
            body = p.encode_node (p.place r.header.key);
          }),
          w,
        )
    unfolding ask
    place_found r w =
        let (n, own) = p.trusts_self asked in
        rw (p.server_at-addr asked, own, p.decode-encode_id r.header.key)

    -- If the server that the key is placed on trusts the asked one, the user's key is stored on it.
    pub user_registration_handler-stores :
        (r : Request) (w : Ring) (key : PublicKey) (pem : Bytes)
        → r.header.pub_key ≡ some key
        → write_public_key codec key ≡ ok pem
        → Trusts p (p.place r.header.key).addr s.id
        → (w' : Ring) × (user_registration_handler codec calls s r w ≡ (ok registered, w'))
          × (lookup r.header.from (w' (p.place r.header.key).addr).disk ≡ some pem)
          × ((other : String) → (p.place r.header.key).addr ≢ other → w' other ≡ w other)
    unfolding user_registration_handler ask post_public_key_handler
    user_registration_handler-stores r w key pem h e (n, trusted) =
        let at = (p.place r.header.key).addr in
        let clock = increment_clock (w at).clock 0 in
        let disk = insert r.header.from pem (erase r.header.from (w at).disk) in
        let w' = update at (record { disk = disk; clock = clock }) w in
        let here : (at == at) ≡ true = ==-self at in
        (
          w',
          rw (
            h,
            e,
            place_found r w,
            p.decode-encode_node r.header.key,
            trusted,
            post-no_faults (w at).disk r.header.from pem,
          ),
          rw here (lookup-insert_self r.header.from pem (erase r.header.from (w at).disk)),
          λ other n. rw (beq_ne at other n) refl,
        )

    -- If it does not, nothing is stored, and the registration succeeds all the same.
    pub user_registration_handler-lost :
        (r : Request) (w : Ring) (key : PublicKey) (pem : Bytes) (x : Error)
        → r.header.pub_key ≡ some key
        → write_public_key codec key ≡ ok pem
        → get_trusted_node (p.server_at (p.place r.header.key).addr) s.id ≡ err x
        → user_registration_handler codec calls s r w ≡ (ok registered, w)
    unfolding user_registration_handler ask
    user_registration_handler-lost r w key pem x h e unknown =
        rw (h, e, place_found r w, p.decode-encode_node r.header.key, unknown)

    unfoldable pub Known : String → Identifier → Type 0
    Known addr id =
        Trusts p addr id ⊎ ((x : Error) × (get_trusted_node (p.server_at addr) id ≡ err x))

    pub trusted_or_not : (addr : String) (id : Identifier) → Known addr id
    unfolding get_trusted_node Known
    trusted_or_not addr id = of_entry (lookup id (p.server_at addr).trusted_nodes)
      where
        of_entry :
            (o : Option Node) → ((n : Node) × (found o ≡ ok n)) ⊎ ((x : Error) × (found o ≡ err x))
        of_entry none = inr (_, refl)
        of_entry (some n) = inl (n, refl)

    -- Either way it succeeds, and no other server changes.
    pub user_registration_handler-registered :
        (r : Request) (w : Ring) (key : PublicKey) (pem : Bytes)
        → r.header.pub_key ≡ some key
        → write_public_key codec key ≡ ok pem
        → (w' : Ring) × (user_registration_handler codec calls s r w ≡ (ok registered, w'))
          × ((other : String) → (p.place r.header.key).addr ≢ other → w' other ≡ w other)
    unfolding Known
    user_registration_handler-registered r w key pem h e =
        elim (trusted_or_not (p.place r.header.key).addr s.id) [
          | inl trusted ↦
              let (w', done, stored, others) =
                user_registration_handler-stores r w key pem h e trusted in
              (w', done, others)
          | inr (x, unknown) ↦
              (w, user_registration_handler-lost r w key pem x h e unknown, λ other n. refl)
        ]
