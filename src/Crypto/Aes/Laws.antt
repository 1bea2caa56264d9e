-- ===== src/Crypto/Aes/Laws.antt =====
-- Decryption undoes encryption, and what it answers on any other input.
use peerstore.Base.{◌%◌, ◌≤◌, ◌≡◌, ◌≢◌, true, Option, some, arith, Bytes, length}
use peerstore.Base.{nat_eq}
use peerstore.Base.Result.{ok, panic}
use peerstore.Crypto.Padding.{pad_pkcs7}
use peerstore.Crypto.Padding.Laws.{unpad-pad, length-pad_pkcs7}
use peerstore.Crypto.Aes.{Cbc, IsCbc, valid_key, encrypt_with_iv, encrypt, decrypt}

module _ (c : Cbc) (laws : IsCbc c) (key plaintext iv : Bytes) (k : valid_key key ≡ true)
    (i : length iv ≡ 16) where
  blocks_decrypt :
      decrypt c key (c.encrypt_blocks key iv (pad_pkcs7 plaintext)) iv ≡ ok (some plaintext)
  unfolding decrypt
  blocks_decrypt =
      let size = laws.length-encrypt key iv (pad_pkcs7 plaintext) in
      let padded = length-pad_pkcs7 plaintext in
      let back = laws.decrypt-encrypt key iv (pad_pkcs7 plaintext) k i padded.0 in
      ground (arith, back, unpad-pad plaintext)

  -- Where block modes keep their promises, with a key of a length that AES has and an IV of one
  -- block, both encryptions succeed with that IV and whole blocks that decrypt to the plaintext.
  pub decrypt-encrypt :
      (ciphertext : Bytes) × (encrypt_with_iv c key plaintext iv ≡ ok (ciphertext, iv))
      × (encrypt c (some iv) key plaintext ≡ ok (ciphertext, iv))
      × (length ciphertext % 16 ≡ 0)
      × (decrypt c key ciphertext iv ≡ ok (some plaintext))
  unfolding encrypt_with_iv encrypt
  decrypt-encrypt =
      let size = laws.length-encrypt key iv (pad_pkcs7 plaintext) in
      let padded = length-pad_pkcs7 plaintext in
      (
        c.encrypt_blocks key iv (pad_pkcs7 plaintext),
        ground arith,
        ground arith,
        omega arith,
        blocks_decrypt,
      )

-- Decryption answers at all only for a key that AES takes, at least one block of text, whole blocks and an
-- IV of one block; with the first three and an IV of another length the program ends.
pub decrypt_outcomes :
    (c : Cbc) (key ciphertext iv : Bytes)
    → ((text : Option Bytes)
        → decrypt c key ciphertext iv ≡ ok text
        → (valid_key key ≡ true)
          × (16 ≤ length ciphertext)
          × (length ciphertext % 16 ≡ 0)
          × (length iv ≡ 16))
      × (valid_key key ≡ true
          → 16 ≤ length ciphertext
          → length ciphertext % 16 ≡ 0
          → length iv ≢ 16
          → decrypt c key ciphertext iv ≡ panic)
unfolding decrypt
decrypt_outcomes c key ciphertext iv =
    (λ text h. (ground arith, ground arith, ground arith, ground arith), λ k l w n. ground arith)
