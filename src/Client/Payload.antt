-- ===== src/Client/Payload.antt =====
-- What the client's `backup` posts of a file, and what its `getfile` makes of it: `iv ++ ciphertext` under a
-- session key that is encrypted for the owner.
pub mod Laws
use peerstore.Base.{
  ℕ, String, Option, none, some, Bytes, ◌++◌, length, take, drop, ltb, if◌then◌else◌,
}
use peerstore.Base.Result.{Result, ok, err, panic, wrapping, ◌>>=◌, map_ok}
use peerstore.Models.Node.{PrivateKey}
use peerstore.Crypto.Aes.{encrypt, encrypt_with_iv, decrypt}
use peerstore.Crypto.Rsa.{decrypt_rsa, generate_session_key}
use peerstore.Protocol.Message.{Response}
use peerstore.Protocol.Envelope.{Suite, Entropy}

-- `data[:aes.BlockSize]` and `data[aes.BlockSize:]`: a panic where there is no whole block
abbrev pub split_iv : Bytes → Result (Bytes × Bytes)
split_iv body = if ltb (length body) 16 then panic else ok (take 16 body, drop 16 body)

-- A file as it is posted: the IV and the ciphertext, and the session key for the owner
pub record Sealed : Type 0 where
  pub body : Bytes
  pub secret : Bytes

abbrev joined : Bytes → Bytes × Bytes → Sealed
joined secret (ciphertext, iv) = record { body = iv ++ ciphertext; secret = secret }

abbrev sealed_with : Bytes → Result (Bytes × Bytes) → Result Sealed
sealed_with secret r = map_ok (joined secret) (wrapping "failed to encrypt payload" r)

module _ (c : Suite) (self : PrivateKey) where
  -- A file that is not there gets a new session key, and one that is there keeps its key and its IV.
  unfoldable pub seal : Entropy → Option Response → Bytes → Result Sealed
  seal e none plaintext =
      wrapping "failed to generate session key"
        (generate_session_key c.rsa e.session e.padding (some self.public))
      >>= λ keys. sealed_with keys.1 (encrypt c.cbc e.iv keys.0 plaintext)
  seal e (some resp) plaintext =
      wrapping "failed to decrypt session Key" (decrypt_rsa c.rsa self resp.header.secret)
      >>= λ session. split_iv resp.body >>= λ blob.
          sealed_with resp.header.secret (encrypt_with_iv c.cbc session plaintext blob.0)

  -- What `getfile` writes: padding that does not fit gives nil, and no error.
  unfoldable pub unseal : Response → Result (Option Bytes)
  unseal resp = decrypt_rsa c.rsa self resp.header.secret >>= λ session.
      split_iv resp.body >>= λ blob. decrypt c.cbc session blob.1 blob.0
