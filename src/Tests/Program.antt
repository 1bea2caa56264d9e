-- ===== src/Tests/Program.antt =====
-- Three runs of the client program against one node.
use peerstore.Base.{
  ◌≡◌, refl, String, string_eq, bytes_eq, nat_eq, true, none, some, [], ◌∷◌, Bytes, ◌==◌, arith,
}
use peerstore.Base.Dict.{lookup, insert}
use peerstore.Base.Result.{ok}
use peerstore.Models.Node.{zero_node}
use peerstore.Crypto.Aes.{valid_key}
use peerstore.Crypto.Rsa.{generate_session_key, encrypt_rsa}
use peerstore.Crypto.Pem.{read_public_key, read_keypair, read_blocks}
use peerstore.Startup.{Stat, Drive}
use peerstore.Client.Params.{validate_params}
use peerstore.Client.Requests.{user_id}
use peerstore.Client.Direct.{Site, direct, own_machine}
use peerstore.Client.Program.{Run, run_client}
use peerstore.Client.Program.Shared.{Ready, Names, run_client-shares}
use peerstore.Tests.Instances.{own_key, other_key, ones, drawn, plain_suite}
use peerstore.Tests.ShortCodec.{short_codec}
use peerstore.Tests.Direct.{
  codecs, nodes, site, padded_suite, padded_rsa, padded_cbc, padded_laws, differ, secret,
}

-- `files` is the one directory.
abbrev on_drive : Stat
on_drive path = some (path == "files")

-- The key files: both keys of the user of the machine, and the public one of the other user, who is also the peer
abbrev keys_of_own : Bytes
keys_of_own = 2 ∷ 3 ∷ 33 ∷ 3 ∷ 7 ∷ 1 ∷ 2 ∷ 33 ∷ 3 ∷ []

abbrev keys_of_other : Bytes
keys_of_other = 2 ∷ 3 ∷ 55 ∷ 3 ∷ 27 ∷ 1 ∷ 2 ∷ 55 ∷ 3 ∷ []

abbrev own_drive : Drive
own_drive = ("self.pem", keys_of_own) ∷ ("other.pem", keys_of_other) ∷ []

abbrev other_drive : Drive
other_drive = ("self.pem", keys_of_other) ∷ ("other.pem", keys_of_other) ∷ []

abbrev run_of : String → Run
run_of op = record {
  flags = record {
    peer_addr = "low";
    operation = op;
    local_path = "files";
    filename = "a";
    filedest = "b";
  };
  self_key_file = "self.pem";
  peer_key_file = "other.pem";
  share_with_key_file = "other.pem";
  new_key = none;
  walked = "a" ∷ [];
  synced = [];
  joined = λ path. path;
  draws = λ path. drawn;
  padding = [];
  events = [];
}

own_run-Ready :
    (op : String)
    → validate_params on_drive (run_of op).flags ≡ ok tt
    → Ready short_codec on_drive
        (λ path. true)
        (run_of op)
        op
        "low"
        own_drive
        own_key
        other_key.public
unfolding lookup read_keypair read_public_key read_blocks
own_run-Ready op valid = record {
  operation = refl;
  at_addr = refl;
  valid = valid;
  text = keys_of_own;
  stored = refl;
  opened = refl;
  has_key = refl;
  peer_text = keys_of_other;
  peer_stored = refl;
  peer_opened = refl;
  has_peer_key = refl;
}

other_run-Ready :
    (op : String)
    → validate_params on_drive (run_of op).flags ≡ ok tt
    → Ready short_codec on_drive
        (λ path. true)
        (run_of op)
        op
        "low"
        other_drive
        other_key
        other_key.public
unfolding lookup read_keypair read_public_key read_blocks
other_run-Ready op valid = record {
  operation = refl;
  at_addr = refl;
  valid = valid;
  text = keys_of_other;
  stored = refl;
  opened = refl;
  has_key = refl;
  peer_text = keys_of_other;
  peer_stored = refl;
  peer_opened = refl;
  has_peer_key = refl;
}

share_run-Names :
    Names short_codec on_drive (λ path. true) (run_of "share") own_drive other_key.public
unfolding lookup read_public_key read_blocks
share_run-Names = record {
  found = refl;
  text = keys_of_other;
  stored = refl;
  opened = refl;
  has_key = refl;
}

run_client-shares_example :
    (s' t : Site) × (run_client padded_suite
        (direct nodes zero_node)
        own_machine
        codecs
        short_codec
        on_drive
        (λ path. true)
        (λ path. true)
        (run_of "backup")
        own_drive
        site
      ≡ (some (ok tt, s'), own_drive))
    × (run_client padded_suite
          (direct nodes zero_node)
          own_machine
          codecs
          short_codec
          on_drive
          (λ path. true)
          (λ path. true)
          (run_of "share")
          own_drive
          s'
        ≡ (some (ok tt, t), own_drive))
    × (run_client padded_suite
          (direct nodes zero_node)
          own_machine
          codecs
          short_codec
          on_drive
          (λ path. true)
          (λ path. true)
          (run_of "getfile")
          other_drive
          t
        ≡ (some (ok tt, record t { own_files = insert "b" (7 ∷ 8 ∷ []) t.own_files }), other_drive))
unfolding padded_suite plain_suite padded_rsa generate_session_key encrypt_rsa lookup valid_key
    user_id validate_params
run_client-shares_example =
    run_client-shares padded_suite nodes zero_node codecs short_codec on_drive (λ path. true)
      (λ path. true) "low" other_key.public (run_of "backup") (run_of "share") (run_of "getfile")
      own_drive other_drive own_key other_key "a" "b" site (7 ∷ 8 ∷ []) ones secret ones secret
      (own_run-Ready "backup" refl) (own_run-Ready "share" refl) (other_run-Ready "getfile" refl)
      share_run-Names refl refl refl refl refl padded_cbc padded_laws refl refl refl refl refl refl
      refl refl refl refl refl (λ e. differ _ _ (omega arith) e)
