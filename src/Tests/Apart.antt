-- ===== src/Tests/Apart.antt =====
-- The theorems of Client.Apart at two servers with one file.
use peerstore.Base.{
  ◌≡◌, ◌≢◌, refl, arith, string_eq, bytes_eq, bytes_beq_iff, none, some, [], ◌∷◌, ◌++◌, Bytes,
  replicate,
}
use peerstore.Base.Dict.{lookup, insert, lookup-insert_self}
use peerstore.Base.Result.{new, ok, err}
use peerstore.Models.Node.{Identifier, Node, zero_node, zero_identifier}
use peerstore.Crypto.Aes.{decrypt, valid_key}
use peerstore.Crypto.Rsa.{generate_session_key, encrypt_rsa, decrypt_rsa}
use peerstore.File.Storage.{no_faults}
use peerstore.File.Owners.{
  AllFit, owners_of_new, new_header, read_owners, secret_of, find_secret, as_pairs,
}
use peerstore.File.Owners.RoundTrip.{read_owners-new_header}
use peerstore.File.Handlers.{respond, answer, get_file_handler}
use peerstore.Client.Requests.{user_id, file_to_key_identifier, get_request}
use peerstore.Client.Payload.{unseal}
use peerstore.Client.Operations.{backup_file, getfile}
use peerstore.Client.Apart.{Sites, two_servers, own_machine}
use peerstore.Client.Apart.Again.{getfile-apart, backup_file-apart}
use peerstore.Tests.Instances.{plain_suite, own_key, ones, drawn}
use peerstore.Tests.Direct.{codecs, nodes, padded_suite, padded_rsa, padded_cbc}

abbrev peer : Node
peer = record { id = zero_identifier; addr = "peer"; public_key = none }

peer_apart : peer.addr ≢ zero_node.addr
peer_apart e = let same = (string_eq.beq_iff peer.addr zero_node.addr).1 e in absurd cc

-- The user, and the user's secret of the session key of sixteen twos
abbrev me : Identifier
me = 33 ∷ replicate 19 0

abbrev old_session : Bytes
old_session = replicate 16 2

abbrev old_secret : Bytes
old_secret = old_session ++ replicate 240 0

abbrev content : Bytes
content = new_header me old_secret [] ++ (5 ∷ [])

owners_fit : AllFit (owners_of_new me old_secret [])
unfolding as_pairs
owners_fit = ((refl, refl), tt)

content-parsed : read_owners content ≡ some (owners_of_new me old_secret [], 5 ∷ [])
content-parsed = read_owners-new_header me old_secret [] (5 ∷ []) owners_fit (omega arith)

my_secret : secret_of me (owners_of_new me old_secret []) ≡ some old_secret
unfolding find_secret as_pairs
my_secret = rw ((bytes_beq_iff me me).1 refl)

abbrev sites : Sites
sites = record {
  node_files = record { disk = insert zero_identifier content []; clock = 0 };
  peer_files = record { disk = []; clock = 0 };
  own_files = ("a", 7 ∷ 8 ∷ []) ∷ [];
  own_clock = 0;
}

getfile-apart_example :
    getfile padded_suite (two_servers nodes zero_node) own_machine codecs own_key peer "a" "b" sites
    ≡ (err (new "protocol failure"), sites)
unfolding lookup
getfile-apart_example =
    getfile-apart padded_suite nodes zero_node codecs own_key peer "a" "b" sites peer_apart refl
      refl

backup_file-apart_example :
    (text : Bytes) × (s' : Sites) × (backup_file padded_suite
        (two_servers nodes zero_node)
        own_machine
        codecs
        own_key
        peer
        drawn
        "a"
        sites
      ≡ (ok tt, s'))
    × (get_file_handler no_faults (get_request zero_identifier me) s'.node_files
        ≡ (respond (answer 0 old_secret (ones ++ text)), s'.node_files))
    × (decrypt padded_suite.cbc ones text ones ≡ ok (some (7 ∷ 8 ∷ [])))
    × (unseal padded_suite own_key (answer 0 old_secret (ones ++ text))
        ≡ decrypt padded_suite.cbc old_session text ones)
unfolding padded_suite plain_suite padded_rsa generate_session_key encrypt_rsa decrypt_rsa lookup
    valid_key user_id file_to_key_identifier as_pairs
backup_file-apart_example =
    backup_file-apart padded_suite nodes zero_node codecs own_key peer drawn "a" sites (7 ∷ 8 ∷ [])
      ones (ones ++ replicate 240 0) ones content (5 ∷ []) old_secret old_session
      (owners_of_new me old_secret []) peer_apart refl refl
      (lookup-insert_self zero_identifier content []) content-parsed (omega arith) my_secret refl
      padded_cbc refl refl refl refl refl
