-- ===== src/Client/Program/Shared.antt =====
-- Whole runs of the client program against one node.
use peerstore.Base.{
  ◌≡◌, ◌≢◌, String, string_eq, bytes_eq, nat_eq, Bool, true, false, Option, none, some, [], ◌∷◌,
  Bytes, length,
}
use peerstore.Base.Dict.{lookup, insert}
use peerstore.Base.Result.{Result, ok}
use peerstore.Models.Node.{Node, PublicKey, PrivateKey}
use peerstore.Crypto.Aes.{IsCbc, valid_key}
use peerstore.Crypto.Rsa.{IsRsa, generate_session_key, encrypt_rsa}
use peerstore.Crypto.Pem.{Codec, read_public_key, read_keypair}
use peerstore.Protocol.Envelope.{Suite}
use peerstore.Protocol.Transport.{new_transport}
use peerstore.Startup.{Stat, Drive}
use peerstore.Client.Params.{validate_params, load_key}
use peerstore.Client.Requests.{Codecs, user_id, file_to_key_identifier, create_transport}
use peerstore.Client.Operations.{backup_file, backup, getfile, share}
use peerstore.Client.Start.{peer_node, begun, start_client}
use peerstore.Client.Direct.{Site, direct, own_machine, at_node}
use peerstore.Client.Direct.Share.{getfile-share}
use peerstore.Client.Program.{Run, operate, run_client}

-- Each user has a machine with its own key files.
module _ (codec : Codec) (stat : Stat) (opens : String → Bool) where
  -- The flags of a run for this operation are valid, its key files open, and they hold the user's keys and the key of
  -- the peer of this address.
  pub record Ready (r : Run) (op addr : String) (d : Drive) (key : PrivateKey)
      (peer_key : PublicKey) : Type 0 where
    pub operation : r.flags.operation ≡ op
    pub at_addr : r.flags.peer_addr ≡ addr
    pub valid : validate_params stat r.flags ≡ ok tt
    pub text : Bytes
    pub stored : lookup r.self_key_file d ≡ some text
    pub opened : opens r.self_key_file ≡ true
    pub has_key : read_keypair codec text ≡ some (ok key)
    pub peer_text : Bytes
    pub peer_stored : lookup r.peer_key_file d ≡ some peer_text
    pub peer_opened : opens r.peer_key_file ≡ true
    pub has_peer_key : read_public_key codec peer_text ≡ some (ok peer_key)

  -- The file of the user to share with opens and holds this key.
  pub record Names (r : Run) (d : Drive) (other : PublicKey) : Type 0 where
    pub found : stat r.share_with_key_file ≡ some false
    pub text : Bytes
    pub stored : lookup r.share_with_key_file d ≡ some text
    pub opened : opens r.share_with_key_file ≡ true
    pub has_key : read_public_key codec text ≡ some (ok other)

module _ (c : Suite) (encode_node : Node → Bytes) (node : Node) (g : Codecs) (codec : Codec)
    (stat : Stat) (opens creates : String → Bool) (addr : String) (peer_key : PublicKey) where
  start_client-Ready :
      (r : Run) (op : String) (d : Drive) (key : PrivateKey) (s : Site)
      → Ready codec stat opens r op addr d key peer_key
      → start_client
          (direct encode_node node)
          g
          codec
          stat
          opens
          creates
          r.flags
          r.self_key_file
          r.peer_key_file
          r.new_key
          d
          s
        ≡ (begun (user_id g key.public) key (peer_node addr peer_key), d, s)
  unfolding start_client load_key create_transport new_transport at_node
  start_client-Ready r op d key s h = rw (
    h.valid, h.stored, h.opened, h.has_key, h.peer_opened, h.peer_stored, h.has_peer_key, h.at_addr,
  )

  abbrev run : Run → Drive → Site → Option (Result (Unit {0}) × Site) × Drive
  run = run_client c (direct encode_node node) own_machine g codec stat opens creates

  abbrev peer : Node
  peer = peer_node addr peer_key

  run-backup :
      (r : Run) (d : Drive) (key : PrivateKey) (path : String) (s s' : Site)
      → Ready codec stat opens r "backup" addr d key peer_key
      → r.walked ≡ path ∷ []
      → backup_file c (direct encode_node node) own_machine g key peer (r.draws path) path s
        ≡ (ok tt, s')
      → run r d s ≡ (some (ok tt, s'), d)
  unfolding run_client operate backup
  run-backup r d key path s s' h one done =
      rw (start_client-Ready r "backup" d key s h, h.operation, one, done)

  run-share :
      (r : Run) (d : Drive) (key : PrivateKey) (other : PublicKey) (path : String) (s t : Site)
      → Ready codec stat opens r "share" addr d key peer_key
      → Names codec stat opens r d other
      → r.flags.filename ≡ path
      → share c (direct encode_node node) own_machine g key peer r.padding path other s ≡ (ok tt, t)
      → run r d s ≡ (some (ok tt, t), d)
  unfolding run_client operate
  run-share r d key other path s t h names file done = rw (
    start_client-Ready r "share" d key s h,
    h.operation,
    names.found,
    names.opened,
    names.stored,
    names.has_key,
    file,
    done,
  )

  run-getfile :
      (r : Run) (d : Drive) (key : PrivateKey) (path dest : String) (s t : Site)
      → Ready codec stat opens r "getfile" addr d key peer_key
      → r.flags.filename ≡ path
      → r.flags.filedest ≡ dest
      → getfile c (direct encode_node node) own_machine g key peer path dest s ≡ (ok tt, t)
      → run r d s ≡ (some (ok tt, t), d)
  unfolding run_client operate
  run-getfile r d key path dest s t h file there done =
      rw (start_client-Ready r "getfile" d key s h, h.operation, file, there, done)

  -- Three whole runs of the program, two by a user and one by another, each with valid flags, key files that open and
  -- hold the keys of the user and of the peer, against one node that names itself, answers the registrations with an
  -- error and has no file of this path yet, where the libraries keep their promises: a backup of a directory with this
  -- one file, then a share of it with the other user, whose key is in the named file and whose identifier is a
  -- different one, then a getfile by that user. The runs end without an error, leave the key files as they are, and the
  -- last writes the file that was backed up. The session key has a length that AES takes, its two encryptions take
  -- 256 bytes, the identifiers 20, and the IV is one block.
  pub run_client-shares :
      (a b r : Run) (da db : Drive) (self other : PrivateKey) (path dest : String) (s : Site)
      (plaintext session secret iv enc : Bytes)
      → Ready codec stat opens a "backup" addr da self peer_key
      → Ready codec stat opens b "share" addr da self peer_key
      → Ready codec stat opens r "getfile" addr db other peer_key
      → Names codec stat opens b da other.public
      → a.walked ≡ path ∷ []
      → b.flags.filename ≡ path
      → r.flags.filename ≡ path
      → r.flags.filedest ≡ dest
      → g.decode_node (encode_node node) ≡ (node, true)
      → IsCbc c.cbc
      → IsRsa c.rsa
      → lookup (file_to_key_identifier g path) s.files.disk ≡ none
      → lookup path s.own_files ≡ some plaintext
      → generate_session_key c.rsa (a.draws path).session (a.draws path).padding (some self.public)
        ≡ ok (session, secret)
      → valid_key session ≡ true
      → length secret ≡ 256
      → length (user_id g self.public) ≡ 20
      → (a.draws path).iv ≡ some iv
      → length iv ≡ 16
      → encrypt_rsa c.rsa b.padding (some other.public) session ≡ ok enc
      → length enc ≡ 256
      → length (user_id g other.public) ≡ 20
      → user_id g other.public ≢ user_id g self.public
      → (s' t : Site) × (run_client c
            (direct encode_node node)
            own_machine
            g
            codec
            stat
            opens
            creates
            a
            da
            s
          ≡ (some (ok tt, s'), da))
        × (run_client c (direct encode_node node) own_machine g codec stat opens creates b da s'
            ≡ (some (ok tt, t), da))
        × (run_client c (direct encode_node node) own_machine g codec stat opens creates r db t
            ≡ (some (ok tt, record t { own_files = insert dest plaintext t.own_files }), db))
  run_client-shares a b r da db self other path dest s plaintext session secret iv enc ready_a
        ready_b ready_r names one file_b file_r there back is_cbc is_rsa absent here keys valid size
        id_size ivs block encrypted enc_size other_size apart =
      let (s', t, backed_up, shared, got, _) =
        getfile-share c encode_node node g self other peer (a.draws path) path dest s plaintext
          session secret iv b.padding enc back is_cbc is_rsa absent here keys valid size id_size ivs
          block encrypted enc_size other_size apart in
      (
        s',
        t,
        run-backup a da self path s s' ready_a one backed_up,
        run-share b da self other.public path s' t ready_b names file_b shared,
        run-getfile r db other path dest t _ ready_r file_r there got,
      )
