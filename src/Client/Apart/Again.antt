-- ===== src/Client/Apart/Again.antt =====
-- A backup, and what `getfile` gets, where the peer is not the node of the file.
use peerstore.Base.{
  ◌≡◌, ◌≢◌, refl, ap, ◌∙◌, beq_ne, ==-self, String, string_eq, bytes_eq, none, some, List, [], ◌++◌,
  Bytes, length, ◌<◌, true, false, ◌==◌, arith, nat_eq,
}
use peerstore.Base.Dict.{lookup, insert, erase, lookup-insert_self}
use peerstore.Base.Result.{new, ok, err}
use peerstore.Models.Node.{Identifier, PrivateKey, Node}
use peerstore.Models.Clock.{increment_clock}
use peerstore.Crypto.Aes.{IsCbc, valid_key, decrypt}
use peerstore.Crypto.Rsa.{generate_session_key, decrypt_rsa}
use peerstore.Protocol.Message.{
  Request, Response, get_successor_method, get_file_method, post_file_method,
}
use peerstore.Protocol.Transport.{new_transport}
use peerstore.Protocol.Envelope.{Suite, Entropy}
use peerstore.File.Storage.{no_faults, get}
use peerstore.File.Owners.{IdSecret, read_owners, secret_of, old_header}
use peerstore.File.Handlers.{Files, respond, answer, get_file_handler, post_file_handler}
use peerstore.File.Handlers.Access.{get_file-served, post_file-old}
use peerstore.Client.Requests.{
  Codecs, file_to_key_identifier, user_id, create_transport, get_node, get_key, get_request,
}
use peerstore.Client.Payload.{Sealed, unseal}
use peerstore.Client.Payload.Laws.{seal-new, split_iv-append}
use peerstore.Client.Operations.{backup_file, backup_request, getfile}
use peerstore.Client.Apart.{Sites, at_address, two_servers, own_machine}
use peerstore.Client.Direct.Steps.{link}
use peerstore.Client.Direct.Stored.{as_pairs-nil, nobody-AllFit}
use peerstore.File.Owners.{AllFit, as_pairs}
use peerstore.File.Owners.RoundTrip.{read_owners-old_header}
use peerstore.File.Owners.Holds.{read_owners-fit, AllFit-append}
use peerstore.Base.{append-nil}

-- A post by an owner that names nobody new keeps the owner's secret, and serves it with the new data.
post-Held :
    (r : Request) (s : Files) (content : Bytes) (owners : List IdSecret) (old secret : Bytes)
    → lookup r.header.key s.disk ≡ some content
    → read_owners content ≡ some (owners, old)
    → secret_of r.header.from owners ≡ some secret
    → length owners < 256
    → r.header.shared_with ≡ []
    → (files : Files) × (resp : Response) × (post_file_handler no_faults r s
        ≡ (respond resp, files))
      × (get_file_handler no_faults (get_request r.header.key r.header.from) files
          ≡ (respond (answer 0 secret r.body), files))
post-Held r s content owners old secret stored parsed owned room nobody =
    let shared = r.header.shared_with in
    let none_new : length shared ≡ 0 = ap length nobody in
    let fit : AllFit (as_pairs shared) = rw nobody nobody-AllFit in
    let content' = old_header owners shared ++ r.body in
    let files : Files = record {
      disk = insert r.header.key content' (erase r.header.key s.disk);
      clock = increment_clock s.clock r.header.clock;
    } in
    let parsed' =
      read_owners-old_header owners shared r.body
        (AllFit-append owners _ (read_owners-fit content owners old parsed) fit) (omega arith) in
    let still : secret_of r.header.from (owners ++ as_pairs shared) ≡ some secret =
      rw (nobody, as_pairs-nil, append-nil owners) owned in
    (
      files,
      _,
      post_file-old r s content owners old secret stored parsed owned,
      get_file-served no_faults (get_request r.header.key r.header.from) files content'
            (owners ++ as_pairs shared) r.body refl
            (lookup-insert_self r.header.key content' (erase r.header.key s.disk)) parsed'
          ∙ rw still,
    )

module _ (encode_node : Node → Bytes) (node : Node) (g : Codecs) (id : Identifier) (k : PrivateKey)
    (peer : Node) (apart : peer.addr ≢ node.addr) where
  create_transport-apart :
      (n : Node) (s : Sites)
      → create_transport (two_servers encode_node node) id n k s
        ≡ (ok (link encode_node node g id n k), s)
  unfolding create_transport new_transport
  create_transport-apart n s = refl

  get_node-apart :
      (key : Identifier) (s : Sites)
      → g.decode_node (encode_node node) ≡ (node, true)
      → get_node (two_servers encode_node node) g key id (link encode_node node g id peer k) s
        ≡ (ok (node, none), s)
  unfolding get_node at_address
  get_node-apart key s h = rw h

  get_key-absent :
      (key : Identifier) (s : Sites)
      → lookup key s.peer_files.disk ≡ none
      → get_key (two_servers encode_node node) key id (link encode_node node g id peer k) s
        ≡ (err (new "protocol failure"), s)
  unfolding get_key at_address get_file_handler get
  get_key-absent key s h = rw (beq_ne peer.addr node.addr apart, h)

  -- A post to the node's server
  post-apart :
      (r : Request) (s : Sites) (resp : Response) (files : Files)
      → r.method ≡ post_file_method
      → post_file_handler no_faults r s.node_files ≡ (respond resp, files)
      → (two_servers encode_node node).trip (link encode_node node g id node k) r s
        ≡ (ok resp, record s { node_files = files })
  unfolding at_address
  post-apart r s resp files m e =
      let other : (r.method == get_successor_method) ≡ false = ground arith in
      let other' : (r.method == get_file_method) ≡ false = ground arith in
      let same : (r.method == post_file_method) ≡ true = ground arith in
      rw (other, ==-self node.addr, other', same, e)

module _ (c : Suite) (encode_node : Node → Bytes) (node : Node) (g : Codecs) (self : PrivateKey)
    (peer : Node) where
  abbrev me : Identifier
  me = user_id g self.public

  -- Where the peer is at another address than the node of the files and has no file of this path, `getfile` ends
  -- with an error and writes nothing, whatever the node has.
  pub getfile-apart :
      (path dest : String) (s : Sites)
      → peer.addr ≢ node.addr
      → g.decode_node (encode_node node) ≡ (node, true)
      → lookup (file_to_key_identifier g path) s.peer_files.disk ≡ none
      → getfile c (two_servers encode_node node) own_machine g self peer path dest s
        ≡ (err (new "protocol failure"), s)
  unfolding getfile
  getfile-apart path dest s apart back absent = rw (
    create_transport-apart encode_node node g me self peer apart peer s,
    get_node-apart encode_node node g me self peer apart (file_to_key_identifier g path) s back,
    create_transport-apart encode_node node g me self peer apart node s,
    get_key-absent encode_node node g me self peer apart (file_to_key_identifier g path) s absent,
  )

  -- Where the peer is at another address than the node of the files and has no file of this path, and the node has
  -- the file with an owner's secret of an old session key: the owner's second backup succeeds, encrypts the file
  -- under a new session key, and the node keeps the old secret. So what it serves to the owner is a text of the new
  -- key, which the new key would decrypt to the file, and the client decrypts it with the old one.
  pub backup_file-apart :
      (e : Entropy) (path : String) (s : Sites)
      (plaintext session secret iv content old_body old_secret old_session : Bytes)
      (owners : List IdSecret)
      → peer.addr ≢ node.addr
      → g.decode_node (encode_node node) ≡ (node, true)
      → lookup (file_to_key_identifier g path) s.peer_files.disk ≡ none
      → lookup (file_to_key_identifier g path) s.node_files.disk ≡ some content
      → read_owners content ≡ some (owners, old_body)
      → length owners < 256
      → secret_of me owners ≡ some old_secret
      → decrypt_rsa c.rsa self old_secret ≡ ok old_session
      → IsCbc c.cbc
      → lookup path s.own_files ≡ some plaintext
      → generate_session_key c.rsa e.session e.padding (some self.public) ≡ ok (session, secret)
      → valid_key session ≡ true
      → e.iv ≡ some iv
      → length iv ≡ 16
      → (text : Bytes) × (s' : Sites) × (backup_file c
            (two_servers encode_node node)
            own_machine
            g
            self
            peer
            e
            path
            s
          ≡ (ok tt, s'))
        × (get_file_handler no_faults (get_request (file_to_key_identifier g path) me) s'.node_files
            ≡ (respond (answer 0 old_secret (iv ++ text)), s'.node_files))
        × (decrypt c.cbc session text iv ≡ ok (some plaintext))
        × (unseal c self (answer 0 old_secret (iv ++ text)) ≡ decrypt c.cbc old_session text iv)
  unfolding backup_file unseal
  backup_file-apart e path s plaintext session secret iv content old_body old_secret old_session
        owners apart back absent stored parsed room owned opens is_cbc here keys valid ivs block =
      let key = file_to_key_identifier g path in
      let (text, sealed, decrypts) =
        seal-new c self e plaintext session secret iv is_cbc keys valid ivs block in
      let f : Sealed = record { body = iv ++ text; secret = secret } in
      let r = backup_request c (two_servers encode_node node) own_machine g self peer path f in
      let (files, resp, posted, st) =
        post-Held r s.node_files content owners old_body old_secret stored parsed owned room refl in
      let answered = post-apart encode_node node g me self peer apart r s resp files refl posted in
      (
        text,
        record s { node_files = files },
        rw (
          create_transport-apart encode_node node g me self peer apart peer s,
          get_node-apart encode_node node g me self peer apart key s back,
          create_transport-apart encode_node node g me self peer apart node s,
          here,
          get_key-absent encode_node node g me self peer apart key s absent,
          sealed,
          answered,
        ),
        st,
        decrypts,
        rw (opens, split_iv-append iv text block),
      )
