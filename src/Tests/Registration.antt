-- ===== src/Tests/Registration.antt =====
-- Registration and start of a server at small inputs.
use peerstore.Base.{
  ℕ, arith, ap, ◌≡◌, ◌≢◌, refl, String, string_eq, bytes_eq, nat_eq, bytes_beq, bytes_beq_iff,
  Bool-cases, true, inl, inr, ◌==◌, if◌then◌else◌, some, [], ◌∷◌, Bytes, replicate,
}
use peerstore.Base.Dict.{lookup}
use peerstore.Base.Result.{ok}
use peerstore.Models.Node.{Identifier, zero_identifier, Node}
use peerstore.Crypto.Rsa.{sign}
use peerstore.Protocol.Message.{
  Request, EncryptedMessage, zero_header, get_file_method, user_registration_method,
}
use peerstore.Protocol.Envelope.{sealed}
use peerstore.Protocol.Server.{Server, get_trusted_node, add_trusted_node, requester}
use peerstore.Protocol.Server.Concurrent.{
  Registering, finds_known, adds, done, step, NoneAdds, trusted_stays,
}
use peerstore.Protocol.Connection.{admitted, refused, user_accepts}
use peerstore.Protocol.Registration.{registered, user_registration_handler}
use peerstore.Protocol.Registration.Nodes.{Ring, Places, calls, lookups}
use peerstore.Protocol.Registration.Ring.{registered_user_admitted, registered_user_refused}
use peerstore.Base.{true}
use peerstore.Tests.ShortCodec.{short_codec, short_codec-IsCodec}
use peerstore.Tests.Instances.{plain_suite, plain_rsa, plain_rsa-IsRsa, own_key, other_key, ones}

-- Two servers: one for the identifiers that start with 0, and one for the others
abbrev pub low : Node
low = record { id = zero_identifier; addr = "low"; public_key = some other_key.public }

abbrev pub high : Node
high = record { id = replicate 20 9; addr = "high"; public_key = some other_key.public }

abbrev pub starts_with_zero : Identifier → Bytes
starts_with_zero [] = 0 ∷ []
starts_with_zero (b ∷ bs) = b ∷ []

abbrev pub node_of : Bytes → Node
node_of [] = low
node_of (b ∷ bs) = if b == 0 then low else high

abbrev pub code : Node → Bytes
code n = if n.addr == "low" then 0 ∷ [] else 1 ∷ []

pub places_back : (b : Bytes) → some (node_of (code (node_of b))) ≡ some (node_of b)
places_back [] = refl
places_back (b ∷ bs) = elim (Bool-cases (b == 0)) [ inl e ↦ rw e | inr e ↦ rw e ]

-- Each server trusts itself and `low`.
abbrev pub server_at : String → Server
server_at addr =
    let id : Identifier = if addr == "low" then zero_identifier else replicate 20 9 in
    record {
      private_key = other_key;
      id = id;
      addr = addr;
      trusted_nodes = (id, low) ∷ ((zero_identifier, low) ∷ []);
    }

pub trusts_itself :
    (addr : String) → (n : Node) × (get_trusted_node (server_at addr) (server_at addr).id ≡ ok n)
unfolding get_trusted_node lookup
trusts_itself addr = (low, rw ((bytes_beq_iff (server_at addr).id (server_at addr).id).1 refl))

pub trusts_low :
    (addr : String) → (n : Node) × (get_trusted_node (server_at addr) zero_identifier ≡ ok n)
unfolding get_trusted_node lookup bytes_beq
trusts_low addr = elim (Bool-cases (addr == "low")) [ inl e ↦ (low, rw e) | inr e ↦ (low, rw e) ]

abbrev pub two_nodes : Places
two_nodes = record {
  server_at = server_at;
  server_at-addr = λ addr. refl;
  trusts_self = trusts_itself;
  place = λ id. node_of (starts_with_zero id);
  encode_id = λ id. id;
  decode_id = λ b. b;
  encode_node = code;
  decode_node = λ b. some (node_of b);
  decode-encode_id = λ id. refl;
  decode-encode_node = λ id. places_back (starts_with_zero id);
}

abbrev pub server : Server
server = record { private_key = other_key; id = zero_identifier; addr = "low"; trusted_nodes = [] }

abbrev pub empty : Ring
empty addr = record { disk = []; clock = 0 }

abbrev user : Identifier
user = replicate 20 3

abbrev registration : Request
registration = record {
  header = record zero_header { from = user; pub_key = some own_key.public };
  method = user_registration_method;
  body = [];
}

-- A request of the user for the file of this key
abbrev wants : Identifier → Request
wants key = record {
  header = record zero_header { from = user; key = key };
  method = get_file_method;
  body = [];
}

abbrev signed : EncryptedMessage
signed = sealed 1 own_key user (5 ∷ []) ones ones []

low_apart : low.addr ≢ high.addr
low_apart e =
    let same : (low.addr == high.addr) ≡ true = (string_eq.beq_iff low.addr high.addr).1 e in
    absurd cc

-- The key of the request lies on the server of the registration's key, or on the other one.
registered_user_admitted_example :
    ((user_registration_handler short_codec
        (calls two_nodes)
        (server_at "low")
        registration
        empty).0
      ≡ ok registered)
    × (user_accepts plain_suite short_codec
          (lookups two_nodes
            (user_registration_handler short_codec
              (calls two_nodes)
              (server_at "low")
              registration
              empty).1)
          (server_at "low")
          signed
          (wants zero_identifier)
          (5 ∷ [])
        ≡ admitted [])
unfolding plain_suite plain_rsa sign
registered_user_admitted_example =
    registered_user_admitted two_nodes plain_suite short_codec "low" signed own_key (33 ∷ 3 ∷ [])
      registration (wants zero_identifier) (5 ∷ []) empty short_codec-IsCodec refl refl refl
      plain_rsa-IsRsa refl (trusts_low "low") refl

registered_user_refused_example :
    ((user_registration_handler short_codec
        (calls two_nodes)
        (server_at "low")
        registration
        empty).0
      ≡ ok registered)
    × (user_accepts plain_suite short_codec
          (lookups two_nodes
            (user_registration_handler short_codec
              (calls two_nodes)
              (server_at "low")
              registration
              empty).1)
          (server_at "low")
          signed
          (wants (replicate 20 9))
          (5 ∷ [])
        ≡ refused [])
unfolding lookup
registered_user_refused_example =
    registered_user_refused two_nodes plain_suite short_codec "low" signed own_key (33 ∷ 3 ∷ [])
      registration (wants (replicate 20 9)) (5 ∷ []) empty short_codec-IsCodec refl refl low_apart
      refl

abbrev any_id : String → Identifier
any_id addr = replicate 20 1

-- The user registers as a node and has been found unknown, when another worker meets a trusted identifier.
abbrev first : Bytes → ℕ
first [] = 0
first (b ∷ bs) = b

user_apart : user ≢ zero_identifier
user_apart e = let same : first user ≡ first zero_identifier = ap first e in absurd (omega arith)

abbrev before : Registering
before = record { server = server_at "low"; adding = registration ∷ [] }

abbrev zero_request : Request
zero_request = record registration { header = zero_header }

abbrev afterwards : Registering
afterwards = record {
  server = add_trusted_node (requester registration) (server_at "low");
  adding = [];
}

low_trusted : get_trusted_node (server_at "low") zero_identifier ≡ ok low
unfolding get_trusted_node lookup bytes_beq
low_trusted = refl

trusted_stays_example :
    (get_trusted_node afterwards.server zero_identifier ≡ ok low)
    × NoneAdds zero_identifier afterwards.adding
trusted_stays_example =
    trusted_stays zero_identifier low before afterwards
      (step (finds_known before zero_request low low_trusted)
        (step (adds before registration [] [] refl) (done afterwards)))
      low_trusted (λ e. absurd (user_apart e), tt)
