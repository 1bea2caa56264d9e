-- ===== src/Client/Params.antt =====
-- `validateParams` of cmd/peerstore/client/main.go, and the key file with which the client's `main` starts.
use peerstore.Base.{String, string_eq, Bool, Option, none, some, Bytes, ◌++◌, ◌==◌, if◌then◌else◌}
use peerstore.Base.Dict.{lookup, insert}
use peerstore.Base.Result.{new, Result, ok, err, panic}
use peerstore.Models.Node.{PrivateKey}
use peerstore.Crypto.Pem.{Codec, write_private_key, write_public_key, read_keypair}
use peerstore.Startup.{Stat, directory, Drive, Loaded, loaded, stopped, of_file, written_or_empty}

pub record Flags : Type 0 where
  pub peer_addr : String
  pub operation : String
  pub local_path : String
  pub filename : String
  pub filedest : String

abbrev required : String → String → Result (Unit {0})
required message value = if value == "" then err (new message) else ok tt

abbrev both : Result (Unit {0}) → Result (Unit {0}) → Result (Unit {0})
both (ok _) r = r
both (err e) r = err e
both panic r = panic

unfoldable pub validate_params : Stat → Flags → Result (Unit {0})
validate_params stat f =
    let local = both (required "localPath must be set" f.local_path) (
      directory "error attempting to validate localPath: " "localPath must be a valid directory"
        (stat f.local_path)) in
    if f.peer_addr == ""
    then err (new "peerAddr must be set")
    else if f.operation == "backup"
    then local
    else if f.operation == "sync"
    then local
    else if f.operation == "getfile"
    then both (required "filedest must be set" f.filedest)
        (required "filename must be set" f.filename)
    else if f.operation == "share"
    then required "filename must be set" f.filename
    else err (new "must specify operation flag, either backup or getfile")

module _ (codec : Codec) (opens creates : String → Bool) (self_key_file : String) where
  abbrev generated : Option PrivateKey → Drive → Loaded × Drive
  generated none d = (stopped, d)
  generated (some key) d =
      if creates self_key_file
      then (
        loaded key,
        insert self_key_file
            (write_private_key codec key ++ written_or_empty (write_public_key codec key.public)) d,
      )
      else (stopped, d)

  abbrev found : Option PrivateKey → Option Bytes → Drive → Loaded × Drive
  found new_key none d = generated new_key d
  found new_key (some text) d =
      (if opens self_key_file then of_file (read_keypair codec text) else stopped, d)

  -- Both keys are in one file, which is generated only where there is none.
  unfoldable pub load_key : Option PrivateKey → Drive → Loaded × Drive
  load_key new_key d = found new_key (lookup self_key_file d) d
