-- ===== src/Protocol/Message.antt =====
-- The messages of protocol/transport.go, request.go and response.go, and their validation. A method,
-- a status and a caller type come off the wire as numbers, so they are numbers here. A `[]byte` that is
-- nil and one that is empty are the same list.
use peerstore.Base.{ℕ, ◌≡◌, ◌%◌, Bool, true, false, String, Option, none, some, List, [], ◌∷◌}
use peerstore.Base.{Bytes, length, ◌==◌, ◌||◌, not, nat_eq, if◌then◌else◌}
use peerstore.Base.Dict.{Dict, lookup}
use peerstore.Base.Result.{new, Result, ok, err, ◌>>=◌, wrapping}
use peerstore.Models.Node.{Identifier, zero_identifier, PublicKey}

-- `CallerType`
abbrev pub user_type : ℕ
user_type = 0

abbrev pub node_type : ℕ
node_type = 1

pub record SharedSecret : Type 0 where
  pub id : Identifier
  pub secret : Bytes

pub record Header : Type 0 where
  pub key : Identifier
  pub from : Identifier
  pub from_addr : String
  pub caller : ℕ
  pub pub_key : Option PublicKey
  pub signed_by : Identifier
  pub signature : Bytes
  pub data_length : ℕ
  pub resource_name : String
  pub log : Bool
  pub clock : ℕ
  pub secret : Bytes
  pub shared_with : List SharedSecret

-- `Header{}`
abbrev pub zero_header : Header
zero_header = record {
  key = zero_identifier;
  from = zero_identifier;
  from_addr = "";
  caller = user_type;
  pub_key = none;
  signed_by = zero_identifier;
  signature = [];
  data_length = 0;
  resource_name = "";
  log = false;
  clock = 0;
  secret = [];
  shared_with = [];
}

-- `func (h *Header) Validate() error`
abbrev pub validate_header : Header → Result (Unit {0})
validate_header h = ok tt

-- `RequestMethod`: `1 << iota`
abbrev pub get_file_method : ℕ
get_file_method = 1

abbrev pub post_file_method : ℕ
post_file_method = 2

abbrev pub delete_file_method : ℕ
delete_file_method = 4

abbrev pub get_successor_method : ℕ
get_successor_method = 8

abbrev pub set_predecessor_method : ℕ
set_predecessor_method = 16

abbrev pub get_predecessor_method : ℕ
get_predecessor_method = 32

abbrev pub get_finger_table_method : ℕ
get_finger_table_method = 64

abbrev pub user_registration_method : ℕ
user_registration_method = 128

abbrev pub node_registration_method : ℕ
node_registration_method = 256

abbrev pub node_trust_method : ℕ
node_trust_method = 512

abbrev pub get_public_key_method : ℕ
get_public_key_method = 1024

abbrev pub post_public_key_method : ℕ
post_public_key_method = 2048

-- `RequestMethodToString`
unfoldable pub method_names : Dict ℕ String
method_names =
    (get_file_method, "GetFile")
    ∷ (post_file_method, "PostFile")
    ∷ (get_public_key_method, "GetPublicKey")
    ∷ (post_public_key_method, "PostPublicKey")
    ∷ (delete_file_method, "DeleteFile")
    ∷ (get_successor_method, "GetSuccessor")
    ∷ (set_predecessor_method, "SetPredecessor")
    ∷ (get_predecessor_method, "GetPredecessor")
    ∷ (get_finger_table_method, "GetFingerTable")
    ∷ (user_registration_method, "UserRegistrationMethod")
    ∷ (node_registration_method, "NodeRegistrationMethod")
    ∷ (node_trust_method, "NodeTrustMethod")
    ∷ []

pub record Request : Type 0 where
  pub header : Header
  pub method : ℕ
  pub body : Bytes

abbrev known_method : Option String → Result (Unit {0})
known_method none = err (new "failed to validate request method")
known_method (some name) = ok tt

unfoldable pub validate_request : Request → Result (Unit {0})
unfolding method_names
validate_request r =
    wrapping "failed to validate request header: " (validate_header r.header) >>= λ _.
    known_method (lookup r.method method_names)

-- `ResponseStatus`: `1 << iota`; 0 is the zero value, which no constant names.
abbrev pub success : ℕ
success = 1

abbrev pub error : ℕ
error = 2

pub record Response : Type 0 where
  pub header : Header
  pub status : ℕ
  pub body : Bytes

-- `Response{}`
abbrev pub zero_response : Response
zero_response = record { header = zero_header; status = 0; body = [] }

-- `Response{Status: Error}`
abbrev pub error_response : Response
error_response = record { header = zero_header; status = error; body = [] }

unfoldable pub validate_response : Response → Result (Unit {0})
validate_response r =
    wrapping "failed to validate response header: " (validate_header r.header) >>= λ _.
    if r.status == success || r.status == error
    then ok tt
    else err (new "failed to validate response status")

-- A response that `Validate` lets through
abbrev pub IsResponse : Response → Type 0
IsResponse resp = validate_response resp ≡ ok tt

pub record EncryptedMessage : Type 0 where
  pub header : Header
  pub session_key : Bytes
  pub iv : Bytes
  pub cipher_text : Option Bytes

-- `len(b) == 0`
abbrev pub is_empty : Bytes → Bool
is_empty [] = true
is_empty (b ∷ bs) = false

abbrev whole_blocks : Option Bytes → Bool
whole_blocks none = false
whole_blocks (some c) = length c % 16 == 0

unfoldable pub validate_message : EncryptedMessage → Result (Unit {0})
validate_message em =
    if is_empty em.session_key
    then err (new "invalid session id in encrypted message")
    else if is_empty em.iv
    then err (new "invalid iv in encrypted message")
    else if not (whole_blocks em.cipher_text)
    then err (new "invalid ciphertext in encrypted message")
    else ok tt
