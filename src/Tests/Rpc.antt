-- ===== src/Tests/Rpc.antt =====
-- The theorems of Protocol.Rpc at one server and one client.
use peerstore.Base.{
  suc, ℕ, ◌≡◌, refl, sym, ap, arith, String, true, false, if◌then◌else◌, ◌==◌, bytes_eq, Option,
  none, some, List, [], ◌∷◌, Bytes, bytes_beq, replicate,
}
use peerstore.Base.Dict.{lookup, insert}
use peerstore.Base.Result.{ok, err, new}
use peerstore.Models.Node.{zero_identifier, zero_node}
use peerstore.Crypto.Aes.{IsCbc, valid_key, encrypt}
use peerstore.Crypto.Rsa.{IsRsa, sign, generate_session_key, encrypt_rsa}
use peerstore.Crypto.Padding.{pad_pkcs7, pad_loop}
use peerstore.Crypto.Pem.{read_public_key, read_blocks}
use peerstore.Protocol.Message.{
  Request, Response, zero_header, success, error_response, get_file_method, validate_request,
  validate_response, method_names,
}
use peerstore.Protocol.Envelope.{Suite, sealed, encrypt_and_encode}
use peerstore.Protocol.Envelope.Sendable.{Sendable}
use peerstore.Protocol.Server.{Server, new_server, get_trusted_node}
use peerstore.Protocol.Connection.{Turn, next, closed, crashed, stuck}
use peerstore.Protocol.Registration.{Calls}
use peerstore.Protocol.Transport.{Socket, Transport, round_trip}
use peerstore.Protocol.Rpc.{serve, Connects}
use peerstore.Protocol.Rpc.Served.{trusted_node_served, known_user_served, untrusted_node_told}
use peerstore.Tests.Instances.{
  plain_rsa, plain_rsa-IsRsa, plain_cbc, plain_cbc-IsCbc, own_key, other_key, ones, drawn, one_key,
  count, counting,
}

-- What is sent for the empty request: padding
abbrev request_text : Bytes
request_text = replicate 16 16

abbrev status_and_body : Bytes → Response
status_and_body [] = record { header = zero_header; status = 0; body = [] }
status_and_body (b ∷ bs) = record { header = zero_header; status = b; body = bs }

-- The text of an empty request comes from the client with this caller type, and any other from the server with
-- this signature.
unfoldable duplex : ℕ → Bytes → Suite
unfolding plain_cbc plain_rsa
duplex t signature = record {
  cbc = plain_cbc;
  rsa = plain_rsa;
  message = record {
    encode = λ em. em.cipher_text;
    decode = λ b.
        if b == request_text
        then some (sealed t other_key zero_identifier [] ones ones b)
        else some (sealed 1 own_key (replicate 20 4) signature ones ones b);
  };
  request = record {
    encode = λ r. some r.body;
    decode = λ b. some (record { header = zero_header; method = get_file_method; body = b });
  };
  response = record {
    encode = λ r. some (r.status ∷ r.body);
    decode = λ b. some (status_and_body b);
  };
}

-- A connection that carries one message to the server and its replies back
record Line : Type 0 where
  server : ℕ
  replies : List Bytes

abbrev arrived : Line → Turn ℕ → Line
arrived l (next w b) = record { server = w; replies = b }
arrived l (closed w b) = record { server = w; replies = b }
arrived l crashed = record { server = l.server; replies = [] }
arrived l stuck = record { server = l.server; replies = [] }

abbrev first_reply : Line → List Bytes → Option Bytes × Line
first_reply l [] = (none, l)
first_reply l (b ∷ bs) = (some b, record { server = l.server; replies = bs })

abbrev line : (Bytes → ℕ → Turn ℕ) → Socket Line
line serves = record {
  dial = λ addr l. (true, l);
  write = λ addr wire l. (true, arrived l (serves wire l.server));
  read = λ addr l. first_reply l l.replies;
}

line-Connects : (addr : String) (serves : Bytes → ℕ → Turn ℕ) → Connects (line serves) addr serves
line-Connects addr serves = record {
  far = λ l. l.server;
  answered = λ wire reply more l w e. (
    record { server = w; replies = reply ∷ more },
    record { server = w; replies = more },
    ap (λ turn. (true, arrived l turn)) e,
    refl,
    refl,
  );
  silent = λ wire l w e. (
    record { server = w; replies = [] },
    record { server = w; replies = [] },
    ap (λ turn. (true, arrived l turn)) e,
    refl,
    refl,
  );
}

-- A server that was started alone trusts the identifier of twenty zeros; one with a peer does not.
abbrev alone : Server
alone = new_server own_key (replicate 20 4) "localhost:3000" zero_node

abbrev paired : Server
paired =
    new_server own_key (replicate 20 4) "localhost:3000"
      (record { id = replicate 20 5; addr = "localhost:4000"; public_key = none })

abbrev request : Request
request = record { header = zero_header; method = get_file_method; body = [] }

abbrev counted : Response
counted = record { header = zero_header; status = success; body = 2 ∷ [] }

abbrev client : ℕ → Transport
client t = record {
  caller = t;
  conn = some "localhost:3000";
  from = zero_identifier;
  peer_key = some own_key.public;
  self_key = other_key;
}

abbrev start : Line
start = record { server = 0; replies = [] }

request-valid : validate_request request ≡ ok tt
unfolding validate_request method_names lookup
request-valid = refl

some-injective : (a b : Bytes) → some a ≡ some b → a ≡ b
some-injective a b e = cc

request-Sendable :
    (t : ℕ) (signature : Bytes)
    → Sendable
        (duplex t signature)
        (duplex t signature).request
        drawn
        request
        t
        zero_identifier
        other_key
        own_key
unfolding duplex plain_rsa plain_cbc sign generate_session_key encrypt_rsa valid_key
    encrypt_and_encode encrypt pad_pkcs7 pad_loop bytes_beq
request-Sendable t signature = record {
  wire = request_text;
  raw = [];
  signature = [];
  session = ones;
  session_text = ones;
  iv = ones;
  message_back = λ text e.
      let same = some-injective text request_text e in
      ap (λ b. some (sealed t other_key zero_identifier [] ones ones b)) (sym same);
  decoded = refl;
  encoded = refl;
  signed = refl;
  keyed = refl;
  key_size = refl;
  key_sent = refl;
  drawn = refl;
  iv_size = refl;
  sent = refl;
}

response-Sendable :
    (t : ℕ) (resp : Response) (wire : Bytes)
    → (wire == request_text) ≡ false
    → status_and_body (resp.status ∷ resp.body) ≡ resp
    → pad_pkcs7 (resp.status ∷ resp.body) ≡ wire
    → Sendable
        (duplex t (resp.status ∷ resp.body))
        (duplex t (resp.status ∷ resp.body)).response
        drawn
        resp
        1
        (replicate 20 4)
        own_key
        other_key
unfolding duplex plain_rsa plain_cbc sign generate_session_key encrypt_rsa valid_key
    encrypt_and_encode encrypt
response-Sendable t resp wire other whole padded = record {
  wire = wire;
  raw = resp.status ∷ resp.body;
  signature = resp.status ∷ resp.body;
  session = ones;
  session_text = ones;
  iv = ones;
  message_back = λ text e.
      let same = some-injective text wire e in
      rw other (
        ap (λ b. some (sealed 1 own_key (replicate 20 4) (resp.status ∷ resp.body) ones ones b))
          (sym same));
  decoded = ap some whole;
  encoded = refl;
  signed = refl;
  keyed = refl;
  key_size = refl;
  key_sent = refl;
  drawn = refl;
  iv_size = refl;
  sent = ap ok padded;
}

-- The server's own requests count too.
abbrev counted_calls : Calls ℕ
counted_calls = record {
  ask = λ addr key r w.
      (ok (record { header = zero_header; status = success; body = 1 ∷ [] }), suc w);
  encode_id = λ id. id;
  decode_node = λ b. some zero_node;
}

abbrev serves : ℕ → Bytes → Server → Bytes → ℕ → Turn ℕ
serves t signature server =
    serve (duplex t signature) one_key (λ _. server) counting counted_calls drawn drawn

duplex-IsCbc : (t : ℕ) (signature : Bytes) → IsCbc (duplex t signature).cbc
unfolding duplex
duplex-IsCbc t signature = plain_cbc-IsCbc

duplex-IsRsa : (t : ℕ) (signature : Bytes) → IsRsa (duplex t signature).rsa
unfolding duplex
duplex-IsRsa t signature = plain_rsa-IsRsa

alone-trusts : get_trusted_node alone zero_identifier ≡ ok zero_node
unfolding get_trusted_node new_server lookup insert bytes_beq
alone-trusts = refl

paired-unknown :
    get_trusted_node paired zero_identifier ≡ err (new "node does not exist in trustedNodes")
unfolding get_trusted_node new_server lookup insert bytes_beq
paired-unknown = refl

counted-Sendable :
    (t : ℕ)
    → Sendable
        (duplex t (1 ∷ 2 ∷ []))
        (duplex t (1 ∷ 2 ∷ [])).response
        drawn
        counted
        1
        (replicate 20 4)
        own_key
        other_key
unfolding bytes_beq pad_pkcs7 pad_loop
counted-Sendable t = response-Sendable t counted (1 ∷ 2 ∷ replicate 14 14) refl refl refl

refusal-Sendable :
    Sendable
      (duplex 1 (2 ∷ []))
      (duplex 1 (2 ∷ [])).response
      drawn
      error_response
      1
      (replicate 20 4)
      own_key
      other_key
unfolding bytes_beq pad_pkcs7 pad_loop
refusal-Sendable = response-Sendable 1 error_response (2 ∷ replicate 15 15) refl refl refl

trusted_node_served_example :
    (l : Line) × (round_trip
        (duplex 1 (1 ∷ 2 ∷ []))
        (line (serves 1 (1 ∷ 2 ∷ []) alone))
        drawn
        (client 1)
        request
        start
      ≡ (ok counted, l))
    × (l.server ≡ 1)
unfolding new_server validate_response line-Connects
trusted_node_served_example =
    trusted_node_served (duplex 1 (1 ∷ 2 ∷ [])) one_key (λ _. alone) counting counted_calls drawn
      drawn (line (serves 1 (1 ∷ 2 ∷ []) alone)) "localhost:3000"
      (line-Connects "localhost:3000" (serves 1 (1 ∷ 2 ∷ []) alone)) (duplex-IsCbc 1 (1 ∷ 2 ∷ []))
      (duplex-IsRsa 1 (1 ∷ 2 ∷ [])) drawn (client 1) request start refl refl
      (request-Sendable 1 (1 ∷ 2 ∷ [])) request-valid count counted 1 zero_node refl (omega arith)
      alone-trusts refl refl refl (counted-Sendable 1)

key-read : read_public_key one_key (1 ∷ []) ≡ some (ok other_key.public)
unfolding one_key read_public_key read_blocks
key-read = refl

known_user_served_example :
    (l : Line) × (round_trip
        (duplex 0 (1 ∷ 2 ∷ []))
        (line (serves 0 (1 ∷ 2 ∷ []) alone))
        drawn
        (client 0)
        request
        start
      ≡ (ok counted, l))
    × (l.server ≡ 3)
unfolding new_server validate_response request-Sendable line-Connects
known_user_served_example =
    known_user_served (duplex 0 (1 ∷ 2 ∷ [])) one_key (λ _. alone) counting counted_calls drawn
      drawn (line (serves 0 (1 ∷ 2 ∷ []) alone)) "localhost:3000"
      (line-Connects "localhost:3000" (serves 0 (1 ∷ 2 ∷ []) alone)) (duplex-IsCbc 0 (1 ∷ 2 ∷ []))
      (duplex-IsRsa 0 (1 ∷ 2 ∷ [])) drawn (client 0) request start refl refl
      (request-Sendable 0 (1 ∷ 2 ∷ [])) request-valid count _ _ counted zero_node 1 2 3 refl
      (omega arith) (λ em. refl) refl (λ em. refl) key-read refl refl refl refl (counted-Sendable 0)

untrusted_node_told_example :
    (l : Line) × (round_trip
        (duplex 1 (2 ∷ []))
        (line (serves 1 (2 ∷ []) paired))
        drawn
        (client 1)
        request
        start
      ≡ (ok error_response, l))
    × (l.server ≡ 0)
unfolding new_server line-Connects
untrusted_node_told_example =
    untrusted_node_told (duplex 1 (2 ∷ [])) one_key (λ _. paired) counting counted_calls drawn drawn
      (line (serves 1 (2 ∷ []) paired)) "localhost:3000"
      (line-Connects "localhost:3000" (serves 1 (2 ∷ []) paired)) (duplex-IsCbc 1 (2 ∷ []))
      (duplex-IsRsa 1 (2 ∷ [])) drawn (client 1) request start refl refl
      (request-Sendable 1 (2 ∷ [])) request-valid count (new "node does not exist in trustedNodes")
      refl (omega arith) paired-unknown refl refusal-Sendable
