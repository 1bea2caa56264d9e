-- ===== src/Protocol/Connection/Users.antt =====
-- How a user is authenticated, and where nobody is.
use peerstore.Base.{
  ◌≡◌, ◌≢◌, refl, sym, ap, ◌∙◌, arith, Option, none, some, List, [], ◌∷◌, Bytes, ◌==◌, nat_eq,
}
use peerstore.Base.{false, String}
use peerstore.Base.Dict.{lookup-insert_self}
use peerstore.Base.Result.{Result, ok, err, panic}
use peerstore.Models.Node.{Identifier, PrivateKey, PublicKey, Node, zero_node, zero_identifier}
use peerstore.Crypto.Rsa.{IsRsa, sign, verify}
use peerstore.Crypto.Rsa.Laws.{verify-sign}
use peerstore.Crypto.Pem.{Codec, read_public_key}
use peerstore.Protocol.Message.{Request, Response, EncryptedMessage, user_type, node_type}
use peerstore.Protocol.Message.{node_registration_method, user_registration_method}
use peerstore.Protocol.Envelope.{Suite, Entropy}
use peerstore.Protocol.Server.{Server, new_server, get_trusted_node}
use peerstore.Protocol.Connection.{Lookups, admitted, accepts, user_accepts}
use peerstore.Protocol.Connection.{user_signature, user_key, user_file, user_node, user_successor}
use peerstore.Protocol.Connection.{key_request, successor_request}
use peerstore.Protocol.Connection.Access.{node_admitted_iff}

module _ (c : Suite) (codec : Codec) (out : Lookups) (s : Server) (em : EncryptedMessage)
    (r : Request) (raw : Bytes) where
  -- The server's own lookup answered with this key for the sender.
  unfoldable pub Fetched : PublicKey → Type 0
  Fetched key =
      (place : Response) × (n : Node) × (file : Response) × (out.ask s.addr
          (some s.private_key.public) (successor_request c codec out s em r)
        ≡ ok place)
      × (out.decode_node place.body ≡ some n)
      × (out.ask n.addr n.public_key (key_request c codec out s em r) ≡ ok file)
      × (read_public_key codec file.body ≡ some (ok key))

  user_signature-admitted :
      (v : Result (Unit {0})) (before : List Bytes)
      → user_signature c codec out s em v ≡ admitted before
      → (before ≡ []) × (v ≡ ok tt)
  user_signature-admitted (ok _) before h = (cc, refl)
  user_signature-admitted (err _) before h = cc
  user_signature-admitted panic before h = cc

  Signed : PublicKey → List Bytes → Type 0
  Signed key before = (before ≡ []) × (verify c.rsa (some key) em.header.signature raw ≡ ok tt)

  user_key-admitted :
      (read : Option (Result PublicKey)) (before : List Bytes)
      → user_key c codec out s em raw read ≡ admitted before
      → (key : PublicKey) × (read ≡ some (ok key)) × Signed key before
  unfolding Signed
  user_key-admitted none before h = cc
  user_key-admitted (some (ok key)) before h = (key, refl, user_signature-admitted _ before h)
  user_key-admitted (some (err _)) before h = cc
  user_key-admitted (some panic) before h = cc

  user_file-admitted :
      (asked : Result Response) (before : List Bytes)
      → user_file c codec out s em raw asked ≡ admitted before
      → (file : Response) × (asked ≡ ok file)
        × (key : PublicKey) × (read_public_key codec file.body ≡ some (ok key))
        × Signed key before
  user_file-admitted (ok file) before h =
      let (key, read, signed) = user_key-admitted _ before h in (file, refl, key, read, signed)
  user_file-admitted (err _) before h = cc
  user_file-admitted panic before h = cc

  user_node-admitted :
      (node : Option Node) (before : List Bytes)
      → user_node c codec out s em r raw node ≡ admitted before
      → (n : Node) × (node ≡ some n)
        × (file : Response) × (out.ask n.addr n.public_key (key_request c codec out s em r)
            ≡ ok file)
        × (key : PublicKey) × (read_public_key codec file.body ≡ some (ok key))
        × Signed key before
  user_node-admitted none before h = cc
  user_node-admitted (some n) before h =
      let (file, asked, key, read, signed) = user_file-admitted _ before h in
      (n, refl, file, asked, key, read, signed)

  user_successor-admitted :
      (asked : Result Response) (before : List Bytes)
      → user_successor c codec out s em r raw asked ≡ admitted before
      → (place : Response) × (asked ≡ ok place)
        × (n : Node) × (out.decode_node place.body ≡ some n)
        × (file : Response) × (out.ask n.addr n.public_key (key_request c codec out s em r)
            ≡ ok file)
        × (key : PublicKey) × (read_public_key codec file.body ≡ some (ok key))
        × Signed key before
  user_successor-admitted (ok place) before h =
      let (n, node, file, asked, key, read, signed) = user_node-admitted _ before h in
      (place, refl, n, node, file, asked, key, read, signed)
  user_successor-admitted (err _) before h = cc
  user_successor-admitted panic before h = cc

  -- A user's request, other than a registration, reaches its handler only with nothing written before and with a
  -- signature of its bytes that verifies with the key which the server itself fetched for the sender.
  pub user_admitted :
      (e : Entropy) (before : List Bytes)
      → em.header.caller ≡ user_type
      → r.method ≢ user_registration_method
      → accepts c codec out s em e r raw ≡ admitted before
      → (key : PublicKey) × Fetched key
        × (before ≡ [])
        × (verify c.rsa (some key) em.header.signature raw ≡ ok tt)
  unfolding accepts user_accepts Fetched Signed
  user_admitted e before t m h =
      let other : (r.method == user_registration_method) ≡ false = ground arith in
      let through : accepts c codec out s em e r raw ≡ user_accepts c codec out s em r raw =
        rw (t, other) in
      let (place, asked, n, node, file, answered, key, read, signed) =
        user_successor-admitted _ before (sym through ∙ h) in
      (key, (place, n, file, asked, node, answered, read), signed.0, signed.1)

  -- The converse
  pub known_user_admitted :
      (e : Entropy) (key : PublicKey)
      → em.header.caller ≡ user_type
      → r.method ≢ user_registration_method
      → Fetched key
      → verify c.rsa (some key) em.header.signature raw ≡ ok tt
      → accepts c codec out s em e r raw ≡ admitted []
  unfolding accepts user_accepts Fetched
  known_user_admitted e key t m (place, n, file, asked, node, answered, read) verified =
      let other : (r.method == user_registration_method) ≡ false = ground arith in
      rw (t, other, asked, node, answered, read, verified)

  -- Whoever holds any key pair is admitted in the name of any trusted node, but for a registration:
  -- the message carries the public key of the pair, and its signature verifies with that key.
  pub any_key_admitted :
      (e : Entropy) (k : PrivateKey) (n : Node)
      → IsRsa c.rsa
      → em.header.caller ≡ node_type
      → r.method ≢ node_registration_method
      → get_trusted_node s r.header.from ≡ ok n
      → em.header.pub_key ≡ some k.public
      → sign c.rsa k raw ≡ ok em.header.signature
      → accepts c codec out s em e r raw ≡ admitted []
  any_key_admitted e k n is_rsa t m known key signed =
      let verified =
        ap (λ (p : Option PublicKey). verify c.rsa p em.header.signature raw) key
        ∙ verify-sign c.rsa is_rsa k raw em.header.signature signed in
      (node_admitted_iff c codec out s em r raw e t m).1 ((n, known), verified)

-- A server that was started without a peer trusts the identifier of twenty zeros, so a stranger with a key of
-- its own and no registration is admitted under that identifier.
pub peerless_server_admits :
    (c : Suite) (codec : Codec) (out : Lookups) (self k : PrivateKey) (id : Identifier)
    (address : String) (em : EncryptedMessage) (r : Request) (raw : Bytes) (e : Entropy)
    → IsRsa c.rsa
    → em.header.caller ≡ node_type
    → r.method ≢ node_registration_method
    → r.header.from ≡ zero_identifier
    → em.header.pub_key ≡ some k.public
    → sign c.rsa k raw ≡ ok em.header.signature
    → accepts c codec out (new_server self id address zero_node) em e r raw ≡ admitted []
unfolding new_server get_trusted_node
peerless_server_admits c codec out self k id address em r raw e is_rsa t m zero key signed =
    let s = new_server self id address zero_node in
    let own : Node = record { id = id; addr = address; public_key = some self.public } in
    let known : get_trusted_node s r.header.from ≡ ok zero_node =
      rw (zero, lookup-insert_self zero_identifier zero_node ((id, own) ∷ [])) in
    any_key_admitted c codec out s em r raw e k zero_node is_rsa t m known key signed
