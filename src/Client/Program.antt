-- ===== src/Client/Program.antt =====
-- A whole run of the client program: `main` of cmd/peerstore/client/main.go, with its `switch` on the operation. An
-- error ends the run and is only logged; `none` is a run that does not end.
pub mod Shared
use peerstore.Base.{
  ℕ, String, string_eq, Bool, Option, none, some, List, Bytes, ◌==◌, if◌then◌else◌, [],
}
use peerstore.Base.Dict.{lookup}
use peerstore.Base.Result.{cause, Result, ok, err, panic}
use peerstore.Base.Act.{Act, ◌>>=◌, pure}
use peerstore.Models.Node.{PublicKey, PrivateKey, Node}
use peerstore.Crypto.Pem.{Codec, read_public_key}
use peerstore.Protocol.Envelope.{Suite, Entropy}
use peerstore.Startup.{Stat, Drive}
use peerstore.Client.Params.{Flags}
use peerstore.Client.Requests.{Net, Machine, Codecs, user_id}
use peerstore.Client.Operations.{backup, getfile, share}
use peerstore.Client.Files.{Event, sync}
use peerstore.Client.Start.{Begun, begun, ended, panicked, hung, start_client}

-- What a run is given: its flags, what `GenerateKeyPair` yields, the files that `filepath.Walk` visits under
-- `localPath` (`synced` without that prefix, which `joined` puts before a path), what it draws from `rand.Reader`, and
-- what happens while it synchronizes.
pub record Run : Type 0 where
  pub flags : Flags
  pub self_key_file : String
  pub peer_key_file : String
  pub share_with_key_file : String
  pub new_key : Option PrivateKey
  pub walked : List String
  pub synced : List String
  pub joined : String → String
  pub draws : String → Entropy
  pub padding : Bytes
  pub events : List Event

module _ {W : Type 0} (c : Suite) (net : Net W) (disk : Machine W) (g : Codecs) (codec : Codec)
    (stat : Stat) (opens : String → Bool) where
  abbrev with_other_key :
      Run → PrivateKey → Node → Option (Result PublicKey) → W → Option (Result (Unit {0}) × W)
  with_other_key r self peer none w = none
  with_other_key r self peer (some (ok other)) w =
      some (share c net disk g self peer r.padding r.flags.filename other w)
  with_other_key r self peer (some (err e)) w = some (err e, w)
  with_other_key r self peer (some panic) w = some (panic, w)

  -- The error of `os.Open` is lost, and reading from a nil file is an error.
  abbrev with_other_file :
      Run → PrivateKey → Node → Option Bytes → W → Option (Result (Unit {0}) × W)
  with_other_file r self peer none w = some (err (cause "unable to read file: "), w)
  with_other_file r self peer (some text) w =
      with_other_key r self peer (read_public_key codec text) w

  abbrev share_with_file :
      Run → PrivateKey → Node → Drive → Option Bool → W → Option (Result (Unit {0}) × W)
  share_with_file r self peer d none w = some (err (cause "stat"), w)
  share_with_file r self peer d (some is_dir) w =
      with_other_file r self peer
        (if opens r.share_with_key_file then lookup r.share_with_key_file d else none) w

  -- The `switch`
  unfoldable pub operate : Run → PrivateKey → Node → Drive → W → Option (Result (Unit {0}) × W)
  operate r self peer d w =
      let op = r.flags.operation in
      if op == "share"
      then share_with_file r self peer d (stat r.share_with_key_file) w
      else if op == "sync"
      then some (
          (sync net disk g r.joined self (user_id g self.public) r.synced peer r.events >>= λ _.
          pure tt)
            w)
      else if op == "backup"
      then some (backup c net disk g self peer r.draws r.walked w)
      else if op == "getfile"
      then some (getfile c net disk g self peer r.flags.filename r.flags.filedest w)
      else some (ok tt, w)

  abbrev operated : Run → Begun × Drive × W → Option (Result (Unit {0}) × W) × Drive
  operated r (begun id key peer, d, w) = (operate r key peer d w, d)
  operated r (ended, d, w) = (some (err (cause "start"), w), d)
  operated r (panicked, d, w) = (some (panic, w), d)
  operated r (hung, d, w) = (none, d)

  unfoldable pub run_client :
      (String → Bool) → Run → Drive → W → Option (Result (Unit {0}) × W) × Drive
  run_client creates r d w = operated r (
      start_client net g codec stat opens creates r.flags r.self_key_file r.peer_key_file r.new_key
        d w)
