-- ===== src/Protocol/Envelope.antt =====
-- Encrypted messages: `encryptAndEncode`, `decryptAndDecodeResponse` and `decryptAndDecodeRequest` of
-- protocol/server.go. The connection carries what `encoding/gob` writes.
pub mod RoundTrip
pub mod Sendable
use peerstore.Base.{ℕ, ◌≡◌, ◌<◌, String, Option, none, some, Bytes, [], length}
use peerstore.Base.Result.{Error, wrap, cause, Result, ok, err, panic, ◌>>=◌, wrapping, of_option}
use peerstore.Models.Node.{Identifier, PublicKey, PrivateKey}
use peerstore.Crypto.Aes.{Cbc, encrypt, decrypt}
use peerstore.Crypto.Rsa.{Rsa, sign, decrypt_rsa, generate_session_key}
use peerstore.Protocol.Message.{Header, zero_header, EncryptedMessage, validate_message}
use peerstore.Protocol.Message.{Request, validate_request, Response, validate_response}

-- The gob encoding of one type
pub record Coding (A : Type 0) : Type 0 where
  pub encode : A → Option Bytes
  pub decode : Bytes → Option A

-- What the program uses of Go's cryptography and of its encodings
pub record Suite : Type 0 where
  pub cbc : Cbc
  pub rsa : Rsa
  pub message : Coding EncryptedMessage
  pub request : Coding Request
  pub response : Coding Response

-- What one encryption draws from `rand.Reader`
pub record Entropy : Type 0 where
  pub session : Option Bytes
  pub padding : Bytes
  pub iv : Option Bytes

-- An error of `Sign` is overwritten by the next assignment, and its signature is nil.
abbrev signature_of : Result Bytes → Result Bytes
signature_of (ok s) = ok s
signature_of (err e) = ok []
signature_of panic = panic

abbrev or_empty : Option Bytes → Bytes
or_empty none = []
or_empty (some b) = b

abbrev pub sealed : ℕ → PrivateKey → Identifier → Bytes → Bytes → Bytes → Bytes → EncryptedMessage
sealed t self_key from signature session_key iv ciphertext = record {
  header = record zero_header {
    caller = t;
    pub_key = some self_key.public;
    from = from;
    signature = signature;
  };
  session_key = session_key;
  iv = iv;
  cipher_text = some ciphertext;
}

module _ (c : Suite) {A : Type 0} (g : Coding A) where
  -- The bytes that are written to the connection
  unfoldable pub encrypt_and_encode :
      Entropy → A → ℕ → Option PublicKey → Identifier → PrivateKey → Result Bytes
  encrypt_and_encode e payload t peer_key from self_key =
      wrapping "failure encoding request: " (of_option "gob" (g.encode payload)) >>= λ raw.
      signature_of (sign c.rsa self_key raw) >>= λ signature.
      wrapping "failure generating session: "
        (generate_session_key c.rsa e.session e.padding peer_key)
      >>= λ keys.
          wrapping "failure generating ciphertext: " (encrypt c.cbc e.iv keys.0 raw) >>= λ text.
          wrapping "failure encoding request: " (
            of_option "gob"
              (c.message.encode (sealed t self_key from signature keys.1 text.1 text.0)))

  -- Both decoders, which differ in the payload and in the text of an error
  unfoldable pub decrypt_and_decode :
      String → (A → Result (Unit {0})) → PrivateKey → Bytes → Result (EncryptedMessage × A × Bytes)
  decrypt_and_decode invalid validate self_key wire =
      wrapping "failed to decrypt response" (of_option "gob" (c.message.decode wire)) >>= λ em.
      wrapping "failure validating response: " (validate_message em) >>= λ _.
      wrapping "invalid session key" (decrypt_rsa c.rsa self_key em.session_key) >>= λ session.
      wrapping "invalid ciphertext" (decrypt c.cbc session (or_empty em.cipher_text) em.iv)
      >>= λ payload.
          wrapping "failed to decode response" (of_option "gob" (g.decode (or_empty payload)))
          >>= λ a. wrapping invalid (validate a) >>= λ _. ok (em, a, or_empty payload)

module _ (c : Suite) where
  unfoldable pub decrypt_and_decode_response :
      PrivateKey → Bytes → Result (EncryptedMessage × Response × Bytes)
  decrypt_and_decode_response =
      decrypt_and_decode c c.response "failure validating response: " validate_response

  unfoldable pub decrypt_and_decode_request :
      PrivateKey → Bytes → Result (EncryptedMessage × Request × Bytes)
  decrypt_and_decode_request =
      decrypt_and_decode c c.request "failed to validate request" validate_request
