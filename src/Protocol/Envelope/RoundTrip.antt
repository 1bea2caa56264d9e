-- ===== src/Protocol/Envelope/RoundTrip.antt =====
-- What one side encrypts for the other, the other decrypts, and its signature verifies.
use peerstore.Base.{
  ℕ, ◌≡◌, ◌%◌, refl, sym, ap, ◌∙◌, String, Option, none, some, Bytes, [], ◌∷◌, length, true, false,
  arith,
}
use peerstore.Base.{◌==◌, nat_eq}
use peerstore.Base.Result.{Result, ok, wrapping, of_option}
use peerstore.Models.Node.{Identifier, PublicKey, PrivateKey}
use peerstore.Crypto.Aes.{IsCbc, valid_key, encrypt, decrypt}
use peerstore.Crypto.Aes.Laws.{decrypt-encrypt}
use peerstore.Crypto.Rsa.{IsRsa, sign, verify, decrypt_rsa, generate_session_key}
use peerstore.Crypto.Rsa.Laws.{verify-sign, decrypt_rsa-generate_session_key}
use peerstore.Protocol.Message.{EncryptedMessage, validate_message, is_empty}
use peerstore.Protocol.Envelope.{Coding, Suite, Entropy, sealed, encrypt_and_encode}
use peerstore.Protocol.Envelope.{decrypt_and_decode}

sealed-valid :
    (t : ℕ) (k : PrivateKey) (from : Identifier) (signature session_key iv ciphertext : Bytes)
    → is_empty session_key ≡ false
    → length iv ≡ 16
    → length ciphertext % 16 ≡ 0
    → validate_message (sealed t k from signature session_key iv ciphertext) ≡ ok tt
unfolding validate_message
sealed-valid t k from signature session_key iv ciphertext s i c =
    let whole : (length ciphertext % 16 == 0) ≡ true = ground arith in rw (s, nonempty iv i, whole)
  where
    nonempty : (xs : Bytes) → length xs ≡ 16 → is_empty xs ≡ false
    nonempty [] e = absurd (omega arith)
    nonempty (x ∷ xs) e = refl

-- When every stage succeeds, what is sent is the encoding of the message.
encrypt_and_encode-stages :
    (c : Suite) {A : Type 0} (g : Coding A) (e : Entropy) (payload : A) (t : ℕ)
    (to : Option PublicKey) (from : Identifier) (self : PrivateKey)
    (raw signature session session_text text iv : Bytes)
    → g.encode payload ≡ some raw
    → sign c.rsa self raw ≡ ok signature
    → generate_session_key c.rsa e.session e.padding to ≡ ok (session, session_text)
    → encrypt c.cbc e.iv session raw ≡ ok (text, iv)
    → encrypt_and_encode c g e payload t to from self
      ≡ wrapping "failure encoding request: "
          (of_option "gob" (c.message.encode (sealed t self from signature session_text iv text)))
unfolding encrypt_and_encode
encrypt_and_encode-stages c g e payload t to from self raw signature session session_text text iv
      enc signed keys fresh =
    rw (enc, signed, keys, fresh)

wrapping-of_option :
    {A : Type 0} (s t : String) (o : Option A) (a : A)
    → wrapping s (of_option t o) ≡ ok a
    → o ≡ some a
wrapping-of_option s t none a e = cc
wrapping-of_option s t (some b) a e = cc

decrypt_and_decode-stages :
    (c : Suite) {A : Type 0} (g : Coding A) (invalid : String) (validate : A → Result (Unit {0}))
    (self : PrivateKey) (wire : Bytes) (em : EncryptedMessage) (session raw text : Bytes)
    (payload : A)
    → c.message.decode wire ≡ some em
    → validate_message em ≡ ok tt
    → decrypt_rsa c.rsa self em.session_key ≡ ok session
    → em.cipher_text ≡ some text
    → decrypt c.cbc session text em.iv ≡ ok (some raw)
    → g.decode raw ≡ some payload
    → validate payload ≡ ok tt
    → decrypt_and_decode c g invalid validate self wire ≡ ok (em, payload, raw)
unfolding decrypt_and_decode
decrypt_and_decode-stages c g invalid validate self wire em session raw text payload received valid
      keys sent back dec v =
    rw (received, valid, keys, sent, back, dec, v)

-- Where the libraries keep their promises, gob decodes this message and payload, and signing and
-- the session key succeed with a key of a length that AES has and an IV of one block: a valid
-- payload that `self` encrypted for `peer` is what `peer` gets, with the message's header: the
-- caller type, the sender, the sender's public key, and a signature of the bytes that this key
-- verifies.
pub decrypt-encrypt_message :
    (c : Suite) {A : Type 0} (g : Coding A) (invalid : String) (validate : A → Result (Unit {0}))
    (e : Entropy) (payload : A) (t : ℕ) (from : Identifier) (self peer : PrivateKey)
    (raw signature session session_text iv wire : Bytes)
    → IsCbc c.cbc
    → IsRsa c.rsa
    → ((text : Bytes)
        → let em = sealed t self from signature session_text iv text in
          c.message.encode em ≡ some wire → c.message.decode wire ≡ some em)
    → g.decode raw ≡ some payload
    → validate payload ≡ ok tt
    → g.encode payload ≡ some raw
    → sign c.rsa self raw ≡ ok signature
    → generate_session_key c.rsa e.session e.padding (some peer.public) ≡ ok (session, session_text)
    → valid_key session ≡ true
    → is_empty session_text ≡ false
    → e.iv ≡ some iv
    → length iv ≡ 16
    → encrypt_and_encode c g e payload t (some peer.public) from self ≡ ok wire
    → (em : EncryptedMessage) × (decrypt_and_decode c g invalid validate peer wire
        ≡ ok (em, payload, raw))
      × (em.header.caller ≡ t)
      × (em.header.from ≡ from)
      × (em.header.pub_key ≡ some self.public)
      × (verify c.rsa em.header.pub_key em.header.signature raw ≡ ok tt)
decrypt-encrypt_message c g invalid validate e payload t from self peer raw signature session
      session_text iv wire is_cbc is_rsa message_back payload_back v enc signed keys key_size
      nonempty ivs iv_size sent =
    let (text, with_iv, fresh, whole, back) =
      decrypt-encrypt c.cbc is_cbc session raw iv key_size iv_size in
    let em = sealed t self from signature session_text iv text in
    let drawn = ap (λ (iv : Option Bytes). encrypt c.cbc iv session raw) ivs ∙ fresh in
    let session_back =
      (decrypt_rsa-generate_session_key c.rsa is_rsa peer e.session e.padding session session_text
        keys).1 in
    let encoded : c.message.encode em ≡ some wire = wrapping-of_option _ _ _ wire (
      sym (
        encrypt_and_encode-stages c g e payload t (some peer.public) from self raw signature session
          session_text text iv enc signed keys drawn)
      ∙ sent) in
    let received = message_back text encoded in
    (
      em,
      decrypt_and_decode-stages c g invalid validate peer wire em session raw text payload received
          (sealed-valid t self from signature session_text iv text nonempty iv_size whole)
          session_back refl back payload_back v,
      refl,
      refl,
      refl,
      verify-sign c.rsa is_rsa self raw signature signed,
    )
