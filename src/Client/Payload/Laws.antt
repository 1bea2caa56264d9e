-- ===== src/Client/Payload/Laws.antt =====
-- What was sealed is unsealed again, by every holder of the session key.
use peerstore.Base.{◌≡◌, ap, ◌∙◌, Option, none, some, Bytes, ◌++◌, length, ltb, false, true, arith}
use peerstore.Base.{take-append, drop-append, length-append}
use peerstore.Base.Result.{ok}
use peerstore.Models.Node.{PrivateKey}
use peerstore.Crypto.Aes.{IsCbc, valid_key, encrypt, decrypt}
use peerstore.Crypto.Aes.Laws.{decrypt-encrypt}
use peerstore.Crypto.Rsa.{decrypt_rsa, generate_session_key}
use peerstore.Protocol.Message.{Response}
use peerstore.Protocol.Envelope.{Suite, Entropy}
use peerstore.Client.Payload.{seal, unseal, split_iv}

pub split_iv-append : (iv text : Bytes) → length iv ≡ 16 → split_iv (iv ++ text) ≡ ok (iv, text)
split_iv-append iv text h =
    let long : ltb (length (iv ++ text)) 16 ≡ false = ground (arith, length-append iv text) in
    rw (long, take-append 16 iv text h, drop-append 16 iv text h)

module _ (c : Suite) (self : PrivateKey) where
  -- The response carries a file that was encrypted under `session`, which `self` can decrypt.
  pub record Holds (session iv plaintext : Bytes) (resp : Response) : Type 0 where
    pub ciphertext : Bytes
    pub opens : decrypt_rsa c.rsa self resp.header.secret ≡ ok session
    pub block : length iv ≡ 16
    pub layout : resp.body ≡ iv ++ ciphertext
    pub decrypts : decrypt c.cbc session ciphertext iv ≡ ok (some plaintext)

  pub unseal-Holds :
      (session iv plaintext : Bytes) (resp : Response)
      → Holds session iv plaintext resp
      → unseal c self resp ≡ ok (some plaintext)
  unfolding unseal
  unseal-Holds session iv plaintext resp h =
      rw (h.opens, h.layout, split_iv-append iv h.ciphertext h.block, h.decrypts)

  -- A new file: the ciphertext behind the IV, and the session key for the owner
  pub seal-new :
      (e : Entropy) (plaintext session secret iv : Bytes)
      → IsCbc c.cbc
      → generate_session_key c.rsa e.session e.padding (some self.public) ≡ ok (session, secret)
      → valid_key session ≡ true
      → e.iv ≡ some iv
      → length iv ≡ 16
      → (ciphertext : Bytes) × (seal c self e none plaintext
          ≡ ok (record { body = iv ++ ciphertext; secret = secret }))
        × (decrypt c.cbc session ciphertext iv ≡ ok (some plaintext))
  unfolding seal
  seal-new e plaintext session secret iv is_cbc keys valid ivs block =
      let (text, with_iv, fresh, whole, back) =
        decrypt-encrypt c.cbc is_cbc session plaintext iv valid block in
      let drawn = ap (λ (i : Option Bytes). encrypt c.cbc i session plaintext) ivs ∙ fresh in
      (text, rw (keys, drawn), back)

  -- A file that is there: the same key and IV
  pub seal-again :
      (e : Entropy) (resp : Response) (plaintext old session iv : Bytes)
      → IsCbc c.cbc
      → valid_key session ≡ true
      → Holds session iv old resp
      → (ciphertext : Bytes) × (seal c self e (some resp) plaintext
          ≡ ok (record { body = iv ++ ciphertext; secret = resp.header.secret }))
        × (decrypt c.cbc session ciphertext iv ≡ ok (some plaintext))
  unfolding seal
  seal-again e resp plaintext old session iv is_cbc valid h =
      let (text, with_iv, fresh, whole, back) =
        decrypt-encrypt c.cbc is_cbc session plaintext iv valid h.block in
      (text, rw (h.opens, h.layout, split_iv-append iv h.ciphertext h.block, with_iv), back)
