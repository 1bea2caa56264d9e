-- ===== src/Crypto/Aes.antt =====
-- `EncryptWithIV`, `Encrypt` and `Decrypt` of crypto/aes.go, over Go's block modes.
pub mod Laws
use peerstore.Base.{
  ℕ, ◌%◌, ◌≡◌, Bool, true, false, not, ◌||◌, Option, none, some, Bytes, length, ltb, ◌==◌,
}
use peerstore.Base.{nat_eq, if◌then◌else◌}
use peerstore.Base.Result.{
  Error, new, wrap, cause, Result, ok, err, panic, ◌>>=◌, wrapping, of_option,
}
use peerstore.Crypto.Padding.{pad_pkcs7, unpad_pkcs7}

-- `CryptBlocks` of `cipher.NewCBCEncrypter` and `cipher.NewCBCDecrypter`, on a key, an IV and whole
-- blocks
pub record Cbc : Type 0 where
  pub encrypt_blocks : Bytes → Bytes → Bytes → Bytes
  pub decrypt_blocks : Bytes → Bytes → Bytes → Bytes

-- `aes.NewCipher` takes keys of 16, 24 and 32 bytes.
unfoldable pub valid_key : Bytes → Bool
valid_key key = length key == 16 || length key == 24 || length key == 32

abbrev pub new_cipher : Bytes → Result (Unit {0})
new_cipher key = if valid_key key then ok tt else err (cause "aes: invalid key size")

-- `cipher.NewCBCEncrypter` and `NewCBCDecrypter` panic on an IV that is not one block.
abbrev pub new_mode : Bytes → Result (Unit {0})
new_mode iv = if length iv == 16 then ok tt else panic

-- What the documentation of the block modes promises
pub record IsCbc (c : Cbc) : Type 0 where
  pub length-encrypt :
      (key iv blocks : Bytes) → length (c.encrypt_blocks key iv blocks) ≡ length blocks
  pub decrypt-encrypt :
      (key iv blocks : Bytes)
      → valid_key key ≡ true
      → length iv ≡ 16
      → length blocks % 16 ≡ 0
      → c.decrypt_blocks key iv (c.encrypt_blocks key iv blocks) ≡ blocks

module _ (c : Cbc) where
  -- The padded text is encrypted in place.
  unfoldable pub encrypt_with_iv : Bytes → Bytes → Bytes → Result (Bytes × Bytes)
  encrypt_with_iv key plaintext iv =
      wrapping "failed to create new cipher: " (new_cipher key) >>= λ _.
      new_mode iv >>= λ _. ok (c.encrypt_blocks key iv (pad_pkcs7 plaintext), iv)

  -- `random` is what `io.ReadFull(rand.Reader, iv)` fills the IV with.
  unfoldable pub encrypt : Option Bytes → Bytes → Bytes → Result (Bytes × Bytes)
  encrypt random key plaintext = wrapping "failed to create new cipher: " (new_cipher key) >>= λ _.
      wrapping "failed to generate iv: " (of_option "rand" random) >>= λ iv.
      new_mode iv >>= λ _. ok (c.encrypt_blocks key iv (pad_pkcs7 plaintext), iv)

  -- Padding that does not fit is no error: the plaintext is nil.
  unfoldable pub decrypt : Bytes → Bytes → Bytes → Result (Option Bytes)
  decrypt key ciphertext iv = wrapping "failed to create new cipher: " (new_cipher key) >>= λ _.
      if ltb (length ciphertext) 16
      then err (new "ciphertext is too short")
      else if not (length ciphertext % 16 == 0)
      then err (new "ciphertext is not a multiple of block size")
      else (new_mode iv >>= λ _. ok (unpad_pkcs7 (c.decrypt_blocks key iv ciphertext)))
