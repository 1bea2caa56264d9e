-- ===== src/Client/Operations.antt =====
-- The operations `backup`, `getfile` and `share` of the client's `main`. What a call draws from
-- `rand.Reader` is an argument. An error ends an operation and is only logged.
use peerstore.Base.{String, true, Option, none, some, List, [], ◌∷◌, Bytes, length, if◌then◌else◌}
use peerstore.Base.Result.{Error, cause, Result, ok, err, panic}
use peerstore.Base.Act.{Act, ◌>>=◌, pure, lift, wrap_step}
use peerstore.Models.Node.{Identifier, PublicKey, PrivateKey, Node}
use peerstore.Crypto.Rsa.{decrypt_rsa, encrypt_rsa}
use peerstore.Protocol.Message.{
  Request, Response, SharedSecret, Header, zero_header, user_type, post_file_method,
}
use peerstore.Protocol.Envelope.{Suite, Entropy}
use peerstore.Client.Payload.{Sealed, seal, unseal}
use peerstore.Client.Requests.{
  Net, Machine, Codecs, file_to_key_identifier, user_id, create_transport, get_node, get_key,
}

abbrev checked : Node × Option Error → Result Node
checked (n, none) = ok n
checked (n, some e) = err e

abbrev pub or_nil : Option Bytes → Bytes
or_nil none = []
or_nil (some b) = b

-- A step whose error is a value
abbrev attempted : {A : Type 0} → Result A → Result (Option A)
attempted (ok a) = ok (some a)
attempted (err e) = ok none
attempted panic = panic

abbrev pub attempt : {W A : Type 0} → Act W A → Act W (Option A)
attempt f w = let (r, w') = f w in (attempted r, w')

module _ {W : Type 0} (c : Suite) (net : Net W) (disk : Machine W) (g : Codecs) (self : PrivateKey)
    (peer : Node) where
  abbrev pub own_id : Identifier
  own_id = user_id g self.public

  abbrev pub post_header : String → Bytes → Bytes → Header
  post_header path secret body = record zero_header {
    key = file_to_key_identifier g path;
    caller = user_type;
    from = own_id;
    data_length = length body;
    pub_key = some self.public;
    resource_name = path;
    log = true;
    secret = secret;
  }

  abbrev pub backup_request : String → Sealed → Request
  backup_request path f = record {
    header = post_header path f.secret f.body;
    method = post_file_method;
    body = f.body;
  }

  -- The walk function of `backup` on a file. The node that holds the file is looked up, but the peer is asked
  -- whether the file exists.
  unfoldable pub backup_file : Entropy → String → Act W (Unit {0})
  backup_file e path =
      wrap_step "failed to create transport" (create_transport net own_id peer self) >>= λ t.
      get_node net g (file_to_key_identifier g path) own_id t >>= λ found.
      wrap_step "failed to get node" (lift (checked found)) >>= λ node.
      wrap_step "failed to create transport" (create_transport net own_id node self) >>= λ st.
      (λ w. (ok (or_nil (disk.read_file path w)), w)) >>= λ plaintext.
      attempt (get_key net (file_to_key_identifier g path) own_id t) >>= λ held.
      lift (seal c self e held plaintext) >>= λ f.
      wrap_step "failed to post file" (net.trip st (backup_request path f)) >>= λ _. pure tt

  -- `filepath.Walk` ends at the first error. The files of `localPath`, in its order
  unfoldable pub backup : (String → Entropy) → List String → Act W (Unit {0})
  backup draws [] = pure tt
  backup draws (path ∷ paths) = backup_file (draws path) path >>= λ _. backup draws paths

  abbrev stored : String → Bytes → Act W (Unit {0})
  stored dest plaintext w =
      let (fine, w') = disk.write_file dest plaintext w in
      (if fine then ok tt else err (cause "write"), w')

  -- An error of `getNode` is not looked at, and the key is asked of the peer.
  unfoldable pub getfile : String → String → Act W (Unit {0})
  getfile filename filedest = create_transport net own_id peer self >>= λ t.
      get_node net g (file_to_key_identifier g filename) own_id t >>= λ found.
      create_transport net own_id found.0 self >>= λ st.
      get_key net (file_to_key_identifier g filename) own_id t >>= λ resp.
      lift (unseal c self resp) >>= λ plaintext. stored filedest (or_nil plaintext)

  abbrev pub share_request : String → SharedSecret → Response → Request
  share_request filename with_user resp = record {
    header = record (post_header filename resp.header.secret resp.body) {
      shared_with = with_user ∷ [];
    };
    method = post_file_method;
    body = resp.body;
  }

  -- `padding` is what the encryption for the other user draws.
  unfoldable pub share : Bytes → String → PublicKey → Act W (Unit {0})
  share padding filename other = create_transport net own_id peer self >>= λ t.
      get_node net g (file_to_key_identifier g filename) own_id t >>= λ found.
      create_transport net own_id found.0 self >>= λ st.
      get_key net (file_to_key_identifier g filename) own_id st >>= λ resp.
      lift (decrypt_rsa c.rsa self resp.header.secret) >>= λ session.
      lift (encrypt_rsa c.rsa padding (some other) session) >>= λ secret.
      net.trip st (share_request filename (record { id = user_id g other; secret = secret }) resp)
      >>= λ _. pure tt
