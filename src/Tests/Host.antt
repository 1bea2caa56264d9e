-- ===== src/Tests/Host.antt =====
-- The theorems of Startup.Host at one server with one file.
use peerstore.Base.{
  ℕ, ◌≡◌, refl, sym, ◌∙◌, subst, arith, suc, true, Option, none, some, [], ◌∷◌, Bytes, replicate,
  bytes_eq, nat_eq,
}
use peerstore.Base.Dict.{lookup, erase}
use peerstore.Base.Result.{Result, ok}
use peerstore.Models.Node.{Node, key_to_id, Identifier, zero_identifier, zero_node, PublicKey}
use peerstore.Models.Clock.{increment_clock}
use peerstore.Crypto.Aes.{encrypt, decrypt, valid_key}
use peerstore.Crypto.Padding.{pad_pkcs7, pad_loop, unpad_pkcs7}
use peerstore.Crypto.Rsa.{decrypt_rsa, encrypt_rsa, sign, generate_session_key}
use peerstore.Protocol.Message.{
  Request, Response, EncryptedMessage, IsResponse, zero_header, success, error_response,
  delete_file_method, get_predecessor_method, validate_request, validate_message, method_names,
}
use peerstore.Protocol.Envelope.{
  Suite, sealed, encrypt_and_encode, decrypt_and_decode_request, decrypt_and_decode,
}
use peerstore.Protocol.Server.{new_server}
use peerstore.Protocol.Connection.{handle_request, next, reply}
use peerstore.Protocol.Connection.Rounds.{Round}
use peerstore.Protocol.Connection.Rounds.Guarded.{Carries}
use peerstore.Protocol.Registration.{Calls}
use peerstore.Chord.LocalNode.{new_local_node, closest_preceding_node}
use peerstore.Chord.LocalNode.Closest.{IsClosest}
use peerstore.Chord.Handlers.{get_predecessor_handler}
use peerstore.Chord.Remote.{Gob, Peers}
use peerstore.File.Storage.{no_faults}
use peerstore.File.Owners.{owners_of_new}
use peerstore.File.Handlers.{answer}
use peerstore.Startup.{get_predecessor, started, validate_params}
use peerstore.Startup.Host.{Host, Environment, run, handlers}
use peerstore.Startup.Host.Valid.{run-IsResponse}
use peerstore.Startup.Host.Guarded.{Harmless, Keeps, goes_on-Keeps}
use peerstore.Startup.Host.Rings.{goes_on-IsClosest}
use peerstore.Startup.Host.Events.{message, stabilizes, looks_up, Lives, goes_on}
use peerstore.Startup.Host.Begins.{new_local_node-fresh, start_host, start_host-joins}
use peerstore.Base.{String}
use peerstore.Base.Act.{Act}
use peerstore.Models.FingerTable.{Finger, get_ith}
use peerstore.Startup.Host.Forged.{forged_delete}
use peerstore.Tests.Instances.{
  plain_suite, plain_rsa, plain_cbc, own_key, other_key, ones, drawn, one_key, always, silent_gob,
}
use peerstore.Tests.Server.{server, message as em_of, error_text, other_error_reply}
use peerstore.Tests.Files.{
  alice, bob, bob_stranger, file_key, secret, content, stored_disk, request_of, content-parsed,
  content-stored, alice_secret, crowd, empty_disk,
}

-- Other nodes, which count the requests to them and answer with nothing
abbrev one_gob : Gob
one_gob = record {
  encode_node = λ n. some [];
  decode_node = λ b. (zero_node, true);
  encode_id = λ id. some id;
  decode_id = λ b. some b;
}

abbrev silent_peers : Peers ℕ
silent_peers = record {
  get_predecessor = λ n w. (ok zero_node, suc w);
  set_predecessor = λ n m w. (ok tt, suc w);
  successor = λ n id w. (ok zero_node, suc w);
}

abbrev silent_calls : Calls ℕ
silent_calls = record {
  ask = λ addr key r w. (ok error_response, suc w);
  encode_id = λ id. id;
  decode_node = λ b. some zero_node;
}

abbrev plain : Environment ℕ
plain = record {
  rsa = plain_rsa;
  codec = one_key;
  faults = no_faults;
  hash = λ addr. zero_identifier;
  server_gob = silent_gob;
  ring_gob = one_gob;
  encode_table = λ t. some [];
  calls = silent_calls;
  peers = silent_peers;
}

abbrev host : Host ℕ
host = record {
  server = server;
  files = stored_disk;
  ring = new_local_node own_key "localhost:3000" zero_identifier;
  others = 0;
}

-- A request about the file in this name
abbrev about_file : Identifier → ℕ → Request
about_file from m = record (request_of from [] [] []) { method = m }

run-IsResponse_example : IsResponse (record { header = zero_header; status = success; body = [] })
unfolding run get_predecessor_handler new_local_node
run-IsResponse_example =
    run-IsResponse plain none (about_file bob get_predecessor_method) host get_predecessor host _
      refl

abbrev stolen_text : Bytes
stolen_text = 104 ∷ 105 ∷ replicate 14 14

stolen_reply :
    reply plain_suite one_key always server (em_of 2) drawn (answer 0 secret (104 ∷ 105 ∷ []))
    ≡ ok stolen_text
unfolding encrypt_and_encode sign generate_session_key encrypt_rsa encrypt pad_pkcs7 pad_loop
    valid_key plain_suite plain_rsa plain_cbc new_server
stolen_reply = refl

erased_reply :
    reply plain_suite one_key always server (em_of 2) drawn (answer 6 secret []) ≡ ok error_text
unfolding encrypt_and_encode sign generate_session_key encrypt_rsa encrypt pad_pkcs7 pad_loop
    valid_key plain_suite plain_rsa plain_cbc new_server
erased_reply = refl

abbrev emptied : Host ℕ
emptied = record host { files = record { disk = erase file_key stored_disk.disk; clock = 6 } }

forged_delete_example :
    (handle_request plain_suite one_key always server
        (em_of 2)
        drawn
        drawn
        (handlers plain)
        (about_file alice delete_file_method)
        []
        host
      ≡ next emptied (error_text ∷ error_text ∷ []))
    × (lookup file_key emptied.files.disk ≡ none)
unfolding increment_clock
forged_delete_example =
    forged_delete plain plain_suite one_key always (em_of 2) (about_file alice delete_file_method)
      [] drawn drawn host content (owners_of_new alice secret []) (104 ∷ 105 ∷ []) secret error_text
      error_text (omega arith) (omega arith) refl refl content-stored content-parsed alice_secret
      other_error_reply erased_reply

-- Every message of this suite is from nobody that the program knows, and asks in bob's name to delete the file.
abbrev rude_suite : Suite
rude_suite = record plain_suite {
  message = record {
    encode = λ em. em.cipher_text;
    decode = λ b. some (sealed 2 own_key zero_identifier [] ones ones b);
  };
  request = record {
    encode = λ r. some r.body;
    decode = λ b. some (about_file bob delete_file_method);
  };
}

abbrev rude_round : Round
rude_round = record { wire = error_text; out = always; guards = drawn; handler = drawn }

rude_round-decoded :
    decrypt_and_decode_request rude_suite own_key error_text
    ≡ ok (
      sealed 2 own_key zero_identifier [] ones ones error_text,
      about_file bob delete_file_method,
      [],
    )
unfolding decrypt_and_decode_request decrypt_and_decode decrypt_rsa decrypt unpad_pkcs7 valid_key
    plain_suite plain_rsa plain_cbc validate_message validate_request method_names lookup
rude_round-decoded = refl

abbrev HarmlessResult : Result (EncryptedMessage × Request × Bytes) → Type 0
HarmlessResult (ok (em, r, raw)) = Harmless file_key (owners_of_new alice secret []) r
HarmlessResult _ = Unit

rude_rounds-Carries :
    Carries rude_suite own_key (Harmless file_key (owners_of_new alice secret [])) (rude_round ∷ [])
rude_rounds-Carries = (
  λ em r raw d.
      subst HarmlessResult (sym rude_round-decoded ∙ d) (λ same. (omega arith, bob_stranger)),
  tt,
)

goes_on-Keeps_example :
    Lives
      (Keeps own_key file_key content)
      (goes_on plain rude_suite one_key (message rude_round ∷ stabilizes 3 ∷ looks_up ∷ []) host)
unfolding new_server
goes_on-Keeps_example =
    goes_on-Keeps plain own_key file_key content (owners_of_new alice secret []) (104 ∷ 105 ∷ [])
      refl content-parsed rude_suite one_key (message rude_round ∷ stabilizes 3 ∷ looks_up ∷ [])
      host (rude_rounds-Carries, tt) (record { same_key = refl; same_file = content-stored })

abbrev answering : String → Option PublicKey → Request → Act ℕ Response
answering addr key r w = (ok error_response, suc w)

start_host-joins_example :
    (h : Host ℕ) × (f : Finger) × (start_host answering
        (λ addr. zero_identifier)
        silent_peers
        (λ path. some true)
        (ok tt)
        ":3000"
        "peer:3000"
        "data"
        own_key
        (some other_key.public)
        stored_disk
        0
      ≡ (ok h, 3))
    × (h.server
        ≡ started (λ addr. zero_identifier) own_key ":3000" "peer:3000" (some other_key.public))
    × (h.files ≡ stored_disk)
    × (get_ith h.ring.finger_table 1 ≡ ok f)
    × (f.successor ≡ zero_node)
    × (h.ring.predecessor ≡ zero_node)
unfolding validate_params
start_host-joins_example =
    start_host-joins answering (λ addr. zero_identifier) silent_peers (λ path. some true) ":3000"
      "peer:3000" "data" own_key other_key.public stored_disk error_response zero_node (ok tt) 0 1 2
      3 refl refl refl refl (λ e. cc)

goes_on-IsClosest_example :
    Lives
      (λ (v : Host ℕ).
        (found : Node) × (closest_preceding_node v.ring zero_identifier ≡ ok found)
        × IsClosest v.ring (key_to_id host.ring.node.id) (key_to_id zero_identifier) 160 found)
      (goes_on plain rude_suite one_key (message rude_round ∷ stabilizes 3 ∷ looks_up ∷ []) host)
goes_on-IsClosest_example =
    goes_on-IsClosest plain rude_suite one_key (message rude_round ∷ stabilizes 3 ∷ looks_up ∷ [])
      host zero_identifier (new_local_node-fresh own_key "localhost:3000" zero_identifier).0

abbrev empty_host : Host ℕ
empty_host = record host { files = empty_disk }

abbrev NamelessResult : Result (EncryptedMessage × Request × Bytes) → Type 0
NamelessResult (ok (em, r, raw)) = Harmless file_key [] r
NamelessResult _ = Unit

abbrev crowded : Request
crowded = request_of alice secret crowd []
