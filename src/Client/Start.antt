-- ===== src/Client/Start.antt =====
-- The start of the client program, `main` of cmd/peerstore/client/main.go up to the `switch` on the operation: the
-- flags, the key file, the peer's key, and the registration of the user.
pub mod Registers
use peerstore.Base.{String, string_eq, Bool, if◌then◌else◌, Option, none, some, Bytes, []}
use peerstore.Base.Dict.{lookup}
use peerstore.Base.Result.{Result, ok, err, panic}
use peerstore.Base.Act.{Act, ◌>>=◌, pure}
use peerstore.Models.Node.{Identifier, zero_identifier, PublicKey, PrivateKey, Node}
use peerstore.Crypto.Pem.{Codec, read_public_key}
use peerstore.Protocol.Message.{Request, Response, zero_header, user_type, user_registration_method}
use peerstore.Startup.{Stat, Drive, Loaded, loaded, stopped, crashed, stuck}
use peerstore.Client.Params.{Flags, validate_params, load_key}
use peerstore.Client.Requests.{Net, Codecs, user_id, create_transport}

-- The `Key` of the header is its zero value.
abbrev pub registration_request : Identifier → PrivateKey → Request
registration_request id key = record {
  header = record zero_header { from = id; caller = user_type; pub_key = some key.public };
  method = user_registration_method;
  body = [];
}

abbrev pub peer_node : String → PublicKey → Node
peer_node addr key = record { id = zero_identifier; addr = addr; public_key = some key }

-- What the operations use, or how the program ended before
pub data Begun : Type 0 where
  begun : Identifier → PrivateKey → Node → Begun
  ended panicked hung : Begun

module _ {W : Type 0} (net : Net W) (g : Codecs) (codec : Codec) where
  -- The status of the response is not looked at.
  abbrev register : Identifier → PrivateKey → Node → Act W Response
  register id key peer w =
      (create_transport net id peer key >>= λ t. net.trip t (registration_request id key)) w

  abbrev after_registration :
      Identifier → PrivateKey → Node → Drive → Result Response × W → Begun × Drive × W
  after_registration id key peer d (ok resp, w) = (begun id key peer, d, w)
  after_registration id key peer d (err e, w) = (ended, d, w)
  after_registration id key peer d (panic, w) = (panicked, d, w)

  abbrev with_peer_key :
      PrivateKey → String → Option (Result PublicKey) → Drive → W → Begun × Drive × W
  with_peer_key key addr none d w = (hung, d, w)
  with_peer_key key addr (some (ok peer_key)) d w =
      let id = user_id g key.public in
      let peer = peer_node addr peer_key in
      after_registration id key peer d (register id key peer w)
  with_peer_key key addr (some (err e)) d w = (ended, d, w)
  with_peer_key key addr (some panic) d w = (panicked, d, w)

  -- `text` is what the file of the peer's key has, if it can be opened.
  abbrev with_peer_file : PrivateKey → String → Option Bytes → Drive → W → Begun × Drive × W
  with_peer_file key addr none d w = (ended, d, w)
  with_peer_file key addr (some text) d w = with_peer_key key addr (read_public_key codec text) d w

  abbrev with_key : (String → Bool) → String → String → Loaded × Drive → W → Begun × Drive × W
  with_key opens addr peer_key_file (loaded key, d) w =
      with_peer_file key addr (if opens peer_key_file then lookup peer_key_file d else none) d w
  with_key opens addr peer_key_file (Loaded.stopped, d) w = (ended, d, w)
  with_key opens addr peer_key_file (Loaded.crashed, d) w = (panicked, d, w)
  with_key opens addr peer_key_file (Loaded.stuck, d) w = (hung, d, w)

  abbrev with_params :
      (String → Bool)
      → (String → Bool)
      → String
      → String
      → String
      → Option PrivateKey
      → Result (Unit {0})
      → Drive
      → W
      → Begun × Drive × W
  with_params opens creates addr self_key_file peer_key_file new_key (ok _) d w =
      with_key opens addr peer_key_file (load_key codec opens creates self_key_file new_key d) w
  with_params opens creates addr self_key_file peer_key_file new_key (err e) d w = (ended, d, w)
  with_params opens creates addr self_key_file peer_key_file new_key panic d w = (panicked, d, w)

  -- `new_key` is what `GenerateKeyPair` yields; the drive has what the program finds and leaves on its machine.
  unfoldable pub start_client :
      Stat
      → (String → Bool)
      → (String → Bool)
      → Flags
      → String
      → String
      → Option PrivateKey
      → Drive
      → W
      → Begun × Drive × W
  start_client stat opens creates flags self_key_file peer_key_file new_key d w =
      with_params opens creates flags.peer_addr self_key_file peer_key_file new_key
        (validate_params stat flags) d w
