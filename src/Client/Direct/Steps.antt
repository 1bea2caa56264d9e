-- ===== src/Client/Direct/Steps.antt =====
-- The client's steps against the one node, and what it takes for a user to get a file back.
use peerstore.Base.{◌≡◌, refl, String, string_eq, bytes_eq, none, some, List, Bytes, true}
use peerstore.Base.{nat_eq}
use peerstore.Base.Dict.{lookup, insert}
use peerstore.Base.Result.{Error, new, ok, err}
use peerstore.Models.Node.{Identifier, PrivateKey, Node}
use peerstore.Protocol.Message.{Header, Response, user_type, post_file_method}
use peerstore.Protocol.Transport.{Transport, new_transport}
use peerstore.Protocol.Envelope.{Suite}
use peerstore.File.Storage.{no_faults, get}
use peerstore.File.Owners.{IdSecret, read_owners, secret_of}
use peerstore.File.Handlers.{Files, respond, answer, get_file_handler, post_file_handler}
use peerstore.File.Handlers.Access.{get_file-served}
use peerstore.Client.Requests.{
  Net, Codecs, file_to_key_identifier, user_id, create_transport, get_node, get_key, get_request,
}
use peerstore.Client.Payload.Laws.{Holds, unseal-Holds}
use peerstore.Client.Operations.{getfile}
use peerstore.Client.Direct.{Site, at_node, direct, own_machine}

module _ (encode_node : Node → Bytes) (node : Node) (g : Codecs) where
  -- A transport to any address, as `createTransport` makes it
  abbrev pub link : Identifier → Node → PrivateKey → Transport
  link id n key = record {
    caller = user_type;
    conn = some n.addr;
    from = id;
    peer_key = n.public_key;
    self_key = key;
  }

  pub create_transport-direct :
      (id : Identifier) (n : Node) (key : PrivateKey) (s : Site)
      → create_transport (direct encode_node node) id n key s ≡ (ok (link id n key), s)
  unfolding create_transport new_transport
  create_transport-direct id n key s = refl

  pub get_node-direct :
      (key id : Identifier) (n : Node) (k : PrivateKey) (s : Site)
      → g.decode_node (encode_node node) ≡ (node, true)
      → get_node (direct encode_node node) g key id (link id n k) s ≡ (ok (node, none), s)
  unfolding get_node at_node
  get_node-direct key id n k s h = rw h

  pub get_key-missing :
      (key id : Identifier) (n : Node) (k : PrivateKey) (s : Site)
      → lookup key s.files.disk ≡ none
      → (e : Error) × (get_key (direct encode_node node) key id (link id n k) s ≡ (err e, s))
  unfolding get_key at_node get_file_handler get
  get_key-missing key id n k s h = (new "protocol failure", rw h)

  pub get_key-stored :
      (key id : Identifier) (n : Node) (k : PrivateKey) (s : Site) (content : Bytes)
      (owners : List IdSecret) (body secret : Bytes)
      → lookup key s.files.disk ≡ some content
      → read_owners content ≡ some (owners, body)
      → secret_of id owners ≡ some secret
      → get_key (direct encode_node node) key id (link id n k) s ≡ (ok (answer 0 secret body), s)
  unfolding get_key at_node
  get_key-stored key id n k s content owners body secret h p q =
      rw (get_file-served no_faults (get_request key id) s.files content owners body refl h p, q)

  pub post_file-answer :
      (h : Header) (body : Bytes) (id : Identifier) (n : Node) (k : PrivateKey) (s : Site)
      (resp : Response) (files : Files)
      → post_file_handler no_faults
          (record { header = h; method = post_file_method; body = body })
          s.files
        ≡ (respond resp, files)
      → (direct encode_node node).trip
          (link id n k)
          (record { header = h; method = post_file_method; body = body })
          s
        ≡ (ok resp, record s { files = files })
  unfolding at_node
  post_file-answer h body id n k s resp files e = rw e

module _ (c : Suite) (g : Codecs) (self : PrivateKey) where
  -- The site has the file of this path, and what it serves to `self` holds the plaintext.
  pub record Keeps (path : String) (session iv plaintext : Bytes) (s : Site) : Type 0 where
    pub content : Bytes
    pub owners : List IdSecret
    pub body : Bytes
    pub secret : Bytes
    pub stored : lookup (file_to_key_identifier g path) s.files.disk ≡ some content
    pub parsed : read_owners content ≡ some (owners, body)
    pub owned : secret_of (user_id g self.public) owners ≡ some secret
    pub holds : Holds c self session iv plaintext (answer 0 secret body)

module _ (c : Suite) (encode_node : Node → Bytes) (node : Node) (g : Codecs) (self : PrivateKey)
    (peer : Node) (node_back : g.decode_node (encode_node node) ≡ (node, true)) where
  abbrev net : Net Site
  net = direct encode_node node

  abbrev me : Identifier
  me = user_id g self.public

  pub getfile-Keeps :
      (path dest : String) (session iv plaintext : Bytes) (s : Site)
      → Keeps c g self path session iv plaintext s
      → getfile c net own_machine g self peer path dest s
        ≡ (ok tt, record s { own_files = insert dest plaintext s.own_files })
  unfolding getfile
  getfile-Keeps path dest session iv plaintext s k = rw (
    create_transport-direct encode_node node g me peer self s,
    get_node-direct encode_node node g (file_to_key_identifier g path) me peer self s node_back,
    create_transport-direct encode_node node g me node self s,
    get_key-stored encode_node node g (file_to_key_identifier g path) me peer self s k.content
        k.owners k.body k.secret k.stored k.parsed k.owned,
    unseal-Holds c self session iv plaintext (answer 0 k.secret k.body) k.holds,
  )
