-- ===== src/Protocol/Envelope/Sendable.antt =====
-- A message that can be sent: gob encodes it, and every stage of its encryption succeeds.
use peerstore.Base.{ℕ, ◌≡◌, String, some, Bytes, length, true, false}
use peerstore.Base.Result.{Result, ok}
use peerstore.Models.Node.{Identifier, PrivateKey}
use peerstore.Crypto.Aes.{IsCbc, valid_key}
use peerstore.Crypto.Rsa.{IsRsa, sign, verify, generate_session_key}
use peerstore.Protocol.Message.{EncryptedMessage, is_empty}
use peerstore.Protocol.Envelope.{Coding, Suite, Entropy, sealed, encrypt_and_encode}
use peerstore.Protocol.Envelope.{decrypt_and_decode}
use peerstore.Protocol.Envelope.RoundTrip.{decrypt-encrypt_message}

-- `wire` is what is sent, and `raw` what gob writes for the payload. Gob decodes both.
pub record Sendable (c : Suite) {A : Type 0} (g : Coding A) (e : Entropy) (payload : A) (t : ℕ)
    (from : Identifier) (self peer : PrivateKey) : Type 0 where
  pub wire : Bytes
  pub raw : Bytes
  pub signature : Bytes
  pub session : Bytes
  pub session_text : Bytes
  pub iv : Bytes
  pub message_back :
      (text : Bytes)
      → let em = sealed t self from signature session_text iv text in
        c.message.encode em ≡ some wire → c.message.decode wire ≡ some em
  pub decoded : g.decode raw ≡ some payload
  pub encoded : g.encode payload ≡ some raw
  pub signed : sign c.rsa self raw ≡ ok signature
  pub keyed :
      generate_session_key c.rsa e.session e.padding (some peer.public) ≡ ok (session, session_text)
  pub key_size : valid_key session ≡ true
  pub key_sent : is_empty session_text ≡ false
  pub drawn : e.iv ≡ some iv
  pub iv_size : length iv ≡ 16
  pub sent : encrypt_and_encode c g e payload t (some peer.public) from self ≡ ok wire

-- The receiver gets the payload and the sender's header.
pub delivered :
    (c : Suite) {A : Type 0} (g : Coding A) (invalid : String) (validate : A → Result (Unit {0}))
    (e : Entropy) (payload : A) (t : ℕ) (from : Identifier) (self peer : PrivateKey)
    → IsCbc c.cbc
    → IsRsa c.rsa
    → (x : Sendable c g e payload t from self peer) → validate payload ≡ ok tt
    → (em : EncryptedMessage) × (decrypt_and_decode c g invalid validate peer x.wire
        ≡ ok (em, payload, x.raw))
      × (em.header.caller ≡ t)
      × (em.header.from ≡ from)
      × (em.header.pub_key ≡ some self.public)
      × (verify c.rsa em.header.pub_key em.header.signature x.raw ≡ ok tt)
delivered c g invalid validate e payload t from self peer is_cbc is_rsa x valid =
    decrypt-encrypt_message c g invalid validate e payload t from self peer x.raw x.signature
      x.session x.session_text x.iv x.wire is_cbc is_rsa x.message_back x.decoded valid x.encoded
      x.signed x.keyed x.key_size x.key_sent x.drawn x.iv_size x.sent
