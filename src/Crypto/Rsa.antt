-- ===== src/Crypto/Rsa.antt =====
-- crypto/rsa.go and crypto/helper.go over Go's `crypto/rsa` and `crypto/sha256`. A nil key makes those
-- panic. What a call draws from `rand.Reader` is an argument.
pub mod Laws
use peerstore.Base.{ℕ, ◌≡◌, Bool, true, Option, none, some, Bytes, if◌then◌else◌}
use peerstore.Base.Result.{Error, cause, Result, ok, err, panic, ◌>>=◌, wrapping, of_option}
use peerstore.Models.Node.{PublicKey, PrivateKey}

pub record Rsa : Type 0 where
  pub sha256 : Bytes → Bytes
  pub sign_pkcs1v15 : PrivateKey → Bytes → Option Bytes
  pub verify_pkcs1v15 : PublicKey → Bytes → Bytes → Bool
  pub encrypt_pkcs1v15 : Bytes → PublicKey → Bytes → Option Bytes
  pub decrypt_pkcs1v15 : PrivateKey → Bytes → Option Bytes

-- What the documentation of `crypto/rsa` promises of a key pair
pub record IsRsa (c : Rsa) : Type 0 where
  pub verify-sign :
      (k : PrivateKey) (hash signature : Bytes)
      → c.sign_pkcs1v15 k hash ≡ some signature
      → c.verify_pkcs1v15 k.public hash signature ≡ true
  pub decrypt-encrypt :
      (entropy : Bytes) (k : PrivateKey) (message ciphertext : Bytes)
      → c.encrypt_pkcs1v15 entropy k.public message ≡ some ciphertext
      → c.decrypt_pkcs1v15 k ciphertext ≡ some message

module _ (c : Rsa) where
  unfoldable pub sign : PrivateKey → Bytes → Result Bytes
  sign key message =
      wrapping "failed to sign message: " (of_option "rsa" (c.sign_pkcs1v15 key (c.sha256 message)))

  abbrev pub verify_with : Option PublicKey → Bytes → Bytes → Result (Unit {0})
  verify_with none signature hash = panic
  verify_with (some key) signature hash =
      if c.verify_pkcs1v15 key hash signature then ok tt else err (cause "rsa: verification error")

  unfoldable pub verify : Option PublicKey → Bytes → Bytes → Result (Unit {0})
  verify key signature message =
      wrapping "failed to verify message: " (verify_with key signature (c.sha256 message))

  abbrev pub encrypt_with : Bytes → Option PublicKey → Bytes → Result Bytes
  encrypt_with entropy none plaintext = panic
  encrypt_with entropy (some key) plaintext =
      of_option "rsa" (c.encrypt_pkcs1v15 entropy key plaintext)

  unfoldable pub encrypt_rsa : Bytes → Option PublicKey → Bytes → Result Bytes
  encrypt_rsa entropy key plaintext =
      wrapping "failed to encrypt plaintext: " (encrypt_with entropy key plaintext)

  unfoldable pub decrypt_rsa : PrivateKey → Bytes → Result Bytes
  decrypt_rsa key ciphertext =
      wrapping "failed to decrypt ciphertext: "
        (of_option "rsa" (c.decrypt_pkcs1v15 key ciphertext))

  -- `random` is what `rand.Read` fills the session key with: 32 bytes, or an error.
  unfoldable pub generate_session_key :
      Option Bytes → Bytes → Option PublicKey → Result (Bytes × Bytes)
  generate_session_key random entropy key =
      wrapping "failed to read from random: " (of_option "rand" random) >>= λ b.
      wrapping "failed to encrypt with RSA: " (encrypt_rsa entropy key b) >>= λ ciphertext.
      ok (b, ciphertext)
