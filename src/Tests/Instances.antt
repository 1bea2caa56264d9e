-- ===== src/Tests/Instances.antt =====
-- Small stand-ins for the libraries, at which the hypotheses on them hold.
use peerstore.Base.{
  ℕ, ◌≡◌, refl, sym, Option, none, some, [], ◌∷◌, Bytes, ◌==◌, bytes_eq, bytes_beq_iff,
}
use peerstore.Crypto.Aes.{Cbc, IsCbc}
use peerstore.Crypto.Rsa.{Rsa, IsRsa}
use peerstore.Crypto.Pem.{Codec, rsa_key}
use peerstore.Base.Result.{ok}
use peerstore.Base.{suc}
use peerstore.Protocol.Connection.{Lookups, Handler}
use peerstore.Protocol.Server.{Gob}
use peerstore.Models.Node.{PrivateKey, zero_node, zero_identifier}
use peerstore.Protocol.Message.{zero_header, success, get_file_method}
use peerstore.Protocol.Envelope.{Suite, sealed, Entropy}

-- A block mode that leaves the blocks as they are
unfoldable pub plain_cbc : Cbc
plain_cbc = record { encrypt_blocks = λ key iv b. b; decrypt_blocks = λ key iv b. b }

pub plain_cbc-IsCbc : IsCbc plain_cbc
unfolding plain_cbc
plain_cbc-IsCbc = record {
  length-encrypt = λ key iv b. refl;
  decrypt-encrypt = λ key iv b k i w. refl;
}

-- A signature is the hash, and a ciphertext the message.
unfoldable pub plain_rsa : Rsa
plain_rsa = record {
  sha256 = λ m. m;
  sign_pkcs1v15 = λ k h. some h;
  verify_pkcs1v15 = λ k h s. h == s;
  encrypt_pkcs1v15 = λ e k m. some m;
  decrypt_pkcs1v15 = λ k c. some c;
}

some-injective : (a b : Bytes) → some a ≡ some b → a ≡ b
some-injective a b e = cc

pub plain_rsa-IsRsa : IsRsa plain_rsa
unfolding plain_rsa
plain_rsa-IsRsa = record {
  verify-sign = λ k h s e. (bytes_beq_iff h s).1 (some-injective h s e);
  decrypt-encrypt = λ e k m c h. sym h;
}

abbrev pub own_key : PrivateKey
own_key = record { public = record { modulus = 33; exponent = 3 }; secret = 7 }

abbrev pub other_key : PrivateKey
other_key = record { public = record { modulus = 55; exponent = 3 }; secret = 27 }

abbrev pub ones : Bytes
ones = 1 ∷ 1 ∷ 1 ∷ 1 ∷ 1 ∷ 1 ∷ 1 ∷ 1 ∷ 1 ∷ 1 ∷ 1 ∷ 1 ∷ 1 ∷ 1 ∷ 1 ∷ 1 ∷ []

-- Messages of one sender are sent as their ciphertext, requests and responses as their data.
unfoldable pub plain_suite : Suite
unfolding plain_cbc plain_rsa
plain_suite = record {
  cbc = plain_cbc;
  rsa = plain_rsa;
  message = record {
    encode = λ em. em.cipher_text;
    decode = λ b. some (sealed 1 own_key zero_identifier [] ones ones b);
  };
  request = record {
    encode = λ r. some r.body;
    decode = λ b. some (record { header = zero_header; method = get_file_method; body = b });
  };
  response = record {
    encode = λ r. some r.body;
    decode = λ b. some (record { header = zero_header; status = success; body = b });
  };
}

abbrev pub drawn : Entropy
drawn = record { session = some ones; padding = []; iv = some ones }

-- Every text is the public key of `other_key`.
unfoldable pub one_key : Codec
one_key = record {
  encode = λ b. b.bytes;
  decode = λ text. some (record { kind = "PUBLIC KEY"; bytes = text }, []);
  marshal_private = λ k. k.secret ∷ [];
  parse_private = λ b. none;
  marshal_public = λ k. some (k.modulus ∷ []);
  parse_public = λ b. some (rsa_key other_key.public);
}

-- Every request is answered with one byte, which names the zero node.
unfoldable pub always : Lookups
always = record {
  ask = λ addr key r. ok (record { header = zero_header; status = success; body = 1 ∷ [] });
  encode_id = λ id. id;
  decode_node = λ b. some zero_node;
}

abbrev pub count : Handler ℕ
count key r w = ok (suc w, record { header = zero_header; status = success; body = 2 ∷ [] })

-- Handlers that count the requests
abbrev pub counting : ℕ → Option (Handler ℕ)
counting m = some count

-- Keys are not encoded.
unfoldable pub silent_gob : Gob
silent_gob = record { encode_key = λ k. []; encode_registration = λ r. 5 ∷ [] }
