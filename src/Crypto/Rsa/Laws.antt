-- ===== src/Crypto/Rsa/Laws.antt =====
-- Signatures verify and session keys decrypt, with the keys of one pair.
use peerstore.Base.{◌≡◌, Option, some, arith, Bytes}
use peerstore.Base.Result.{ok}
use peerstore.Models.Node.{PrivateKey}
use peerstore.Crypto.Rsa.{Rsa, IsRsa, sign, verify, encrypt_rsa, decrypt_rsa, generate_session_key}

module _ (c : Rsa) (laws : IsRsa c) (k : PrivateKey) where
  -- What `Sign` signed, `Verify` accepts with the public key of the pair.
  pub verify-sign :
      (message signature : Bytes)
      → sign c k message ≡ ok signature
      → verify c (some k.public) signature message ≡ ok tt
  unfolding sign verify
  verify-sign message signature h = ground (arith, laws.verify-sign k (c.sha256 message) signature)

  -- A session key that was generated for a public key is the one that its private key decrypts.
  pub decrypt_rsa-generate_session_key :
      (random : Option Bytes) (entropy session ciphertext : Bytes)
      → generate_session_key c random entropy (some k.public) ≡ ok (session, ciphertext)
      → (random ≡ some session) × (decrypt_rsa c k ciphertext ≡ ok session)
  unfolding generate_session_key encrypt_rsa decrypt_rsa
  decrypt_rsa-generate_session_key random entropy session ciphertext h =
      ground (arith, laws.decrypt-encrypt entropy k session ciphertext)

  -- What was encrypted for a public key, its private key decrypts.
  pub decrypt_rsa-encrypt_rsa :
      (entropy message ciphertext : Bytes)
      → encrypt_rsa c entropy (some k.public) message ≡ ok ciphertext
      → decrypt_rsa c k ciphertext ≡ ok message
  unfolding encrypt_rsa decrypt_rsa
  decrypt_rsa-encrypt_rsa entropy message ciphertext h =
      ground (arith, laws.decrypt-encrypt entropy k message ciphertext)
