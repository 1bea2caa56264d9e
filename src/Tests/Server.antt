-- ===== src/Tests/Server.antt =====
-- The theorems of Protocol at one server and one message.
use peerstore.Base.{ℕ, ◌≡◌, ◌↔◌, refl, ap, arith, some, List, [], ◌∷◌, Bytes, bytes_eq, bytes_beq}
use peerstore.Base.{replicate}
use peerstore.Base.Dict.{lookup, insert}
use peerstore.Base.Result.{ok, err, new}
use peerstore.Models.Node.{Identifier, zero_identifier, zero_node, Node, PublicKey}
use peerstore.Crypto.Rsa.{sign, verify, generate_session_key, encrypt_rsa}
use peerstore.Crypto.Aes.{IsCbc, valid_key, encrypt}
use peerstore.Crypto.Padding.{pad_pkcs7, pad_loop}
use peerstore.Crypto.Pem.{read_public_key, read_blocks}
use peerstore.Protocol.Message.{
  Request, Response, EncryptedMessage, zero_header, error_response, success, get_file_method,
}
use peerstore.Protocol.Message.{validate_request, method_names}
use peerstore.Protocol.Envelope.{sealed, encrypt_and_encode, decrypt_and_decode}
use peerstore.Protocol.Envelope.RoundTrip.{decrypt-encrypt_message}
use peerstore.Protocol.Server.{Server, new_server, get_trusted_node}
use peerstore.Protocol.Connection.{accepts, admitted, reply, user_accepts}
use peerstore.Protocol.Connection.Access.{node_admitted_iff}
use peerstore.Protocol.Connection.Users.{Fetched, user_admitted, any_key_admitted}
use peerstore.Tests.Instances.{
  plain_suite, plain_rsa, plain_rsa-IsRsa, plain_cbc, plain_cbc-IsCbc, own_key, other_key, ones,
  drawn, one_key, always,
}

abbrev server_id : Identifier
server_id = replicate 20 4

abbrev stranger_id : Identifier
stranger_id = replicate 20 6

abbrev pub server : Server
server = new_server own_key server_id "localhost:3000" zero_node

-- A message of `other_key` with this caller type, and a request in this name
abbrev pub message : ℕ → EncryptedMessage
message t = sealed t other_key zero_identifier [] ones ones ones

abbrev request : Identifier → Request
request from = record {
  header = record zero_header {
    from = from;
    from_addr = "localhost:4000";
    pub_key = some other_key.public;
  };
  method = get_file_method;
  body = [];
}

plain : plain_suite.rsa ≡ plain_rsa
unfolding plain_suite
plain = refl

pub zero_trusted : get_trusted_node server zero_identifier ≡ ok zero_node
unfolding get_trusted_node new_server lookup insert bytes_beq
zero_trusted = refl

stranger_unknown :
    get_trusted_node server stranger_id ≡ err (new "node does not exist in trustedNodes")
unfolding get_trusted_node new_server lookup insert bytes_beq
stranger_unknown = refl

any_key_admitted_example :
    accepts plain_suite one_key always server (message 1) drawn (request zero_identifier) []
    ≡ admitted []
unfolding plain_suite sign plain_rsa
any_key_admitted_example =
    any_key_admitted plain_suite one_key always server (message 1) (request zero_identifier) []
      drawn other_key zero_node plain_rsa-IsRsa refl (omega arith) zero_trusted refl refl

node_admitted_iff_example :
    (accepts plain_suite one_key always server (message 1) drawn (request stranger_id) []
      ≡ admitted [])
    ↔ (((n : Node) × (get_trusted_node server stranger_id ≡ ok n))
        × (verify plain_suite.rsa (some other_key.public) [] [] ≡ ok tt))
node_admitted_iff_example =
    node_admitted_iff plain_suite one_key always server (message 1) (request stranger_id) [] drawn
      refl (omega arith)

-- What the server replies to the message: the padding, encrypted
abbrev pub error_text : Bytes
error_text = replicate 16 16

abbrev success_text : Bytes
success_text = 2 ∷ replicate 15 15

abbrev success_response : Response
success_response = record { header = zero_header; status = success; body = 2 ∷ [] }

error_reply :
    reply plain_suite one_key always server (message 1) drawn error_response ≡ ok error_text
unfolding encrypt_and_encode sign generate_session_key encrypt_rsa encrypt pad_pkcs7 pad_loop
    valid_key plain_suite plain_rsa plain_cbc new_server
error_reply = refl

pub other_error_reply :
    reply plain_suite one_key always server (message 2) drawn error_response ≡ ok error_text
other_error_reply = error_reply

success_reply :
    reply plain_suite one_key always server (message 2) drawn success_response ≡ ok success_text
unfolding encrypt_and_encode sign generate_session_key encrypt_rsa encrypt pad_pkcs7 pad_loop
    valid_key plain_suite plain_rsa plain_cbc new_server
success_reply = refl

abbrev nothing_written : List Bytes
nothing_written = []

always-accepts :
    accepts plain_suite one_key always server (message 0) drawn (request stranger_id) []
    ≡ admitted []
unfolding accepts user_accepts read_public_key read_blocks one_key always plain_suite plain_rsa
    verify bytes_beq
always-accepts = refl

user_admitted_example :
    (key : PublicKey) × Fetched plain_suite one_key always server
      (message 0)
      (request stranger_id)
      []
      key
    × (nothing_written ≡ [])
    × (verify plain_suite.rsa (some key) [] [] ≡ ok tt)
user_admitted_example =
    user_admitted plain_suite one_key always server (message 0) (request stranger_id) [] drawn []
      refl (omega arith) always-accepts

-- An empty request from `own_key` to `other_key`
abbrev empty_request : Request
empty_request = record { header = zero_header; method = get_file_method; body = [] }

empty_request-valid : validate_request empty_request ≡ ok tt
unfolding validate_request method_names lookup
empty_request-valid = refl

session-drawn :
    generate_session_key plain_suite.rsa drawn.session drawn.padding (some other_key.public)
    ≡ ok (ones, ones)
unfolding generate_session_key encrypt_rsa plain_suite plain_rsa
session-drawn = refl

request-sent :
    encrypt_and_encode plain_suite plain_suite.request drawn empty_request 1
      (some other_key.public)
      zero_identifier
      own_key
    ≡ ok error_text
unfolding encrypt_and_encode sign generate_session_key encrypt_rsa encrypt pad_pkcs7 pad_loop
    valid_key plain_suite plain_rsa plain_cbc
request-sent = refl

cbc_law : IsCbc plain_suite.cbc
unfolding plain_suite
cbc_law = plain_cbc-IsCbc

gob_back :
    (text : Bytes)
    → plain_suite.message.encode (sealed 1 own_key zero_identifier [] ones ones text)
      ≡ some error_text
    → plain_suite.message.decode error_text
      ≡ some (sealed 1 own_key zero_identifier [] ones ones text)
unfolding plain_suite
gob_back text sent =
    let sent' : some text ≡ some error_text = sent in
    let same : error_text ≡ text = cc in
    ap (λ (b : Bytes). some (sealed 1 own_key zero_identifier [] ones ones b)) same

decrypt-encrypt_message_example :
    (em : EncryptedMessage) × (decrypt_and_decode plain_suite plain_suite.request
        "failed to validate request" validate_request other_key error_text
      ≡ ok (em, empty_request, []))
    × (em.header.caller ≡ 1)
    × (em.header.from ≡ zero_identifier)
    × (em.header.pub_key ≡ some own_key.public)
    × (verify plain_suite.rsa em.header.pub_key em.header.signature [] ≡ ok tt)
unfolding plain_suite sign plain_rsa valid_key
decrypt-encrypt_message_example =
    decrypt-encrypt_message plain_suite plain_suite.request "failed to validate request"
      validate_request drawn empty_request 1 zero_identifier own_key other_key [] [] ones ones ones
      error_text cbc_law plain_rsa-IsRsa gob_back refl empty_request-valid refl refl session-drawn
      refl refl refl refl request-sent
