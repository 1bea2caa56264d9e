-- ===== src/Startup.antt =====
-- The server program of cmd/peerstore/server/main.go up to `Serve`: its flags, its key files, the node that it takes
-- for its peer, the server, and the table of handlers.
pub mod Laws
pub mod Host
pub mod Peer
use peerstore.Base.{
  ℕ, String, string_eq, Bool, true, false, Option, none, some, List, [], ◌∷◌, ◌++◌, Bytes, ◌==◌,
  nat_eq, if◌then◌else◌,
}
use peerstore.Base.Dict.{Dict, lookup, insert}
use peerstore.Base.Result.{Error, new, wrap, cause, Result, ok, err, panic}
use peerstore.Models.Node.{Identifier, PublicKey, PrivateKey, Node, zero_node}
use peerstore.Crypto.Pem.{Codec, write_private_key, write_public_key, read_keypair, read_public_key}
use peerstore.Protocol.Message.{
  get_file_method, post_file_method, delete_file_method, get_successor_method,
}
use peerstore.Protocol.Message.{
  set_predecessor_method, get_predecessor_method, get_finger_table_method,
}
use peerstore.Protocol.Message.{
  user_registration_method, node_registration_method, node_trust_method,
}
use peerstore.Protocol.Message.{get_public_key_method, post_public_key_method}
use peerstore.Protocol.Server.{Server, new_server}
use peerstore.Protocol.Message.{Request, Response, zero_header, node_type}
use peerstore.Base.Act.{Act, ◌>>=◌, pure, lift}

-- `os.Stat`: none where it fails, and else whether it is a directory
abbrev pub Stat : Type 0
Stat = String → Option Bool

-- The test of a path that has to be a directory, with the texts of its two errors
abbrev pub directory : String → String → Option Bool → Result (Unit {0})
directory failed no_directory none = err (wrap failed (cause "stat"))
directory failed no_directory (some is_dir) = if is_dir then ok tt else err (new no_directory)

unfoldable pub validate_params : Stat → String → String → String → Result (Unit {0})
validate_params stat addr initial_peer_addr data_path =
    if addr == ""
    then err (new "addr must be set")
    else if initial_peer_addr == ""
    then err (new "intialPeerAddr must be set")
    else if data_path == ""
    then err (new "dataPath must be set")
    else directory "error attempting to validate dataPath: " "dataPath must be a valid directory"
        (stat data_path)

-- The files of the server's machine
abbrev pub Drive : Type 0
Drive = Dict String Bytes

abbrev pub written_or_empty : Result Bytes → Bytes
written_or_empty (ok b) = b
written_or_empty (err e) = []
written_or_empty panic = []

-- A start ends before there is a server in `stopped`, and does not return in `stuck`.
pub data Loaded : Type 0 where
  loaded : PrivateKey → Loaded
  stopped crashed stuck : Loaded

abbrev pub of_file : Option (Result PrivateKey) → Loaded
of_file none = stuck
of_file (some (ok k)) = loaded k
of_file (some (err e)) = stopped
of_file (some panic) = crashed

-- `opens` and `creates` are whether `os.Open` of a file that is there, and `os.Create` of a path, work.
module _ (codec : Codec) (opens creates : String → Bool) (private_file public_file : String) where
  abbrev save_public : PrivateKey → Drive → Loaded × Drive
  save_public key d =
      if creates public_file
      then (loaded key, insert public_file (written_or_empty (write_public_key codec key.public)) d)
      else (stopped, d)

  abbrev save : PrivateKey → Drive → Loaded × Drive
  save key d =
      if creates private_file
      then save_public key (insert private_file (write_private_key codec key) d)
      else (stopped, d)

  abbrev generated : Option PrivateKey → Drive → Loaded × Drive
  generated none d = (stopped, d)
  generated (some key) d = save key d

  abbrev opened : Option PrivateKey → Option Bytes → Drive → Loaded × Drive
  opened new_key none d = generated new_key d
  opened new_key (some text) d =
      if opens private_file then (of_file (read_keypair codec text), d) else generated new_key d

  -- The key of `privatekey.pem`, or one that is generated and written to it, and its public key to `publickey.pem`
  unfoldable pub load_key : Option PrivateKey → Drive → Loaded × Drive
  load_key new_key d = opened new_key (lookup private_file d) d

-- The node of the flags, with the identifier of the server's own address
unfoldable pub peer_node : (String → Identifier) → String → String → PublicKey → Node
peer_node sha1 addr initial_peer_addr key = record {
  id = sha1 addr;
  addr = initial_peer_addr;
  public_key = some key;
}

-- Without a key file for a peer, the peer is the zero value. The key is what `ReadPublicKeyAsPem` returned of the file,
-- whose error is not looked at.
abbrev pub peer_of : (String → Identifier) → String → String → Option PublicKey → Node
peer_of sha1 addr initial_peer_addr none = zero_node
peer_of sha1 addr initial_peer_addr (some key) = peer_node sha1 addr initial_peer_addr key

unfoldable pub started :
    (String → Identifier) → PrivateKey → String → String → Option PublicKey → Server
started sha1 key addr initial_peer_addr peer_key =
    new_server key (sha1 addr) addr (peer_of sha1 addr initial_peer_addr peer_key)

-- The handlers, by what they are methods of
pub data Route : Type 0 where
  get_file post_file get_public_key post_public_key delete_file : Route
  successor set_predecessor get_predecessor finger_table : Route
  user_registration node_registration node_trust : Route

-- `Handle`
abbrev pub handle : ℕ → Route → Dict ℕ Route → Dict ℕ Route
handle method fn routes = insert method fn routes

unfoldable pub routes : Dict ℕ Route
routes = handle node_trust_method node_trust (
    handle node_registration_method node_registration (
      handle user_registration_method user_registration (
        handle get_finger_table_method finger_table (
          handle get_predecessor_method get_predecessor (
            handle set_predecessor_method set_predecessor (
              handle get_successor_method successor (
                handle delete_file_method delete_file (
                  handle post_public_key_method post_public_key (
                    handle get_public_key_method get_public_key (
                      handle post_file_method post_file
                        (handle get_file_method get_file [])))))))))))

-- The request with which a server registers at its peer
abbrev pub registration_request : (String → Identifier) → PrivateKey → String → Request
registration_request sha1 key addr = record {
  header = record zero_header {
    from = sha1 addr;
    from_addr = addr;
    caller = node_type;
    pub_key = some key.public;
  };
  method = node_registration_method;
  body = [];
}

-- `ask` is `NewTransport` and `RoundTrip`, to an address and encrypted for a key.
module _ {W : Type 0} (ask : String → Option PublicKey → Request → Act W Response)
    (sha1 : String → Identifier) where
  -- The status of the response is not looked at.
  abbrev register : PrivateKey → String → Node → Option PublicKey → Act W (Unit {0})
  register key addr peer none = pure tt
  register key addr peer (some peer_key) =
      ask peer.addr peer.public_key (registration_request sha1 key addr) >>= λ _. pure tt

  -- From the flags to the server that serves. `listens` is whether `NewServer` can listen and make its directory.
  unfoldable pub start_server :
      Stat
      → Result (Unit {0})
      → String
      → String
      → String
      → PrivateKey
      → Option PublicKey
      → Act W Server
  start_server stat listens addr initial_peer_addr data_path key peer_key =
      lift (validate_params stat addr initial_peer_addr data_path) >>= λ _. lift listens >>= λ _.
      register key addr (peer_of sha1 addr initial_peer_addr peer_key) peer_key >>= λ _.
      pure (started sha1 key addr initial_peer_addr peer_key)
