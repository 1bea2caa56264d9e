-- ===== src/Startup/Laws.antt =====
-- What the server program starts with.
use peerstore.Base.{
  ℕ, ◌≡◌, ◌≢◌, ◌↔◌, ◌∙◌, String, string_eq, bytes_eq, Option, none, some, Bytes, true, Bool, nat_eq,
  arith,
}
use peerstore.Base.Dict.{lookup, insert, lookup-insert_self, lookup-insert_ne}
use peerstore.Base.Result.{ok}
use peerstore.Models.Node.{Identifier, PublicKey, PrivateKey}
use peerstore.Crypto.Pem.{Codec, IsCodec, write_private_key, read_public_key}
use peerstore.Crypto.Pem.Laws.{read-write_keys, read_keypair-write_private_key}
use peerstore.Protocol.Message.{method_names}
use peerstore.Protocol.Server.{new_server, get_trusted_node}
use peerstore.Startup.{
  Stat, directory, validate_params, Drive, loaded, load_key, peer_node, started, routes,
}

directory_iff : (a b : String) (o : Option Bool) → (directory a b o ≡ ok tt) ↔ (o ≡ some true)
directory_iff a b none = ground arith
directory_iff a b (some is_dir) = ground arith

-- The parameters are valid exactly if the three strings are not empty and the data path is a directory.
pub validate_params_iff :
    (stat : Stat) (addr initial_peer_addr data_path : String)
    → (validate_params stat addr initial_peer_addr data_path ≡ ok tt)
      ↔ ((addr ≢ "") × (initial_peer_addr ≢ "") × (data_path ≢ "") × (stat data_path ≡ some true))
unfolding validate_params
validate_params_iff stat addr initial_peer_addr data_path = ground (
  arith,
  string_eq.beq_iff addr "",
  string_eq.beq_iff initial_peer_addr "",
  string_eq.beq_iff data_path "",
  directory_iff "error attempting to validate dataPath: " "dataPath must be a valid directory"
      (stat data_path),
)

-- The methods that have a handler are those that have a name, which are those that `Validate` lets through.
pub routed_iff_named : (m : ℕ) → (lookup m routes ≡ none) ↔ (lookup m method_names ≡ none)
unfolding routes method_names lookup insert
routed_iff_named m = ground arith

-- Where the libraries keep their promises and both files can be created, the first start saves the key that it
-- generates: a later start, whatever it would generate, uses the same key and changes no file, and the file of the
-- public key has the public key.
pub load_key-again :
    (codec : Codec) (opens creates : String → Bool) (private_file public_file : String)
    (key : PrivateKey) (other : Option PrivateKey) (d : Drive) (bytes : Bytes)
    → IsCodec codec
    → lookup private_file d ≡ none
    → opens private_file ≡ true
    → creates private_file ≡ true
    → creates public_file ≡ true
    → public_file ≢ private_file
    → codec.marshal_public key.public ≡ some bytes
    → (after : Drive) × (text : Bytes) × (load_key codec opens creates private_file public_file
          (some key)
          d
        ≡ (loaded key, after))
      × (load_key codec opens creates private_file public_file other after ≡ (loaded key, after))
      × (lookup public_file after ≡ some text)
      × (read_public_key codec text ≡ some (ok key.public))
unfolding load_key
load_key-again codec opens creates private_file public_file key other d bytes laws absent open_it
      one two apart m =
    let (text, written, readable, _, _) = read-write_keys codec laws key bytes m in
    let saved = insert private_file (write_private_key codec key) d in
    let after = insert public_file text saved in
    let there : lookup private_file after ≡ some (write_private_key codec key) =
      lookup-insert_ne public_file private_file text saved apart
      ∙ lookup-insert_self private_file (write_private_key codec key) d in
    (
      after,
      text,
      rw (absent, one, two, written),
      rw (there, open_it, read_keypair-write_private_key codec laws key),
      lookup-insert_self public_file text saved,
      readable,
    )

-- A server that is started with the key of a peer no longer has itself among its trusted nodes: its own identifier
-- is that of the peer's entry, whose address and key are the peer's.
pub own_entry_replaced :
    (sha1 : String → Identifier) (key : PrivateKey) (addr initial_peer_addr : String)
    (peer_key : PublicKey)
    → get_trusted_node (started sha1 key addr initial_peer_addr (some peer_key)) (sha1 addr)
      ≡ ok (record { id = sha1 addr; addr = initial_peer_addr; public_key = some peer_key })
unfolding get_trusted_node started new_server peer_node
own_entry_replaced sha1 key addr initial_peer_addr peer_key =
    rw (lookup-insert_self (sha1 addr) (peer_node sha1 addr initial_peer_addr peer_key))
