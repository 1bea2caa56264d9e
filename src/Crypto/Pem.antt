-- ===== src/Crypto/Pem.antt =====
-- Keys as PEM text: crypto/keypair.go over Go's `encoding/pem` and `crypto/x509`. A reader is the bytes
-- that it yields, and a writer the bytes that it was given.
pub mod Laws
use peerstore.Base.{
  ℕ, zero, suc, ◌<◌, ◌≡◌, ◌⊎◌, String, Option, none, some, List, [], ◌∷◌, ◌++◌, Bytes, length,
}
use peerstore.Base.{Bool, true, false, ◌==◌, string_eq, if◌then◌else◌}
use peerstore.Base.Result.{
  Error, new, wrap, cause, Result, ok, err, panic, wrapping, of_option, ◌>>=◌,
}
use peerstore.Models.Node.{PublicKey, PrivateKey}

-- `pem.Block`, without headers
pub record Block : Type 0 where
  pub kind : String
  pub bytes : Bytes

-- `x509.ParsePKIXPublicKey` returns a key of some algorithm.
pub data ParsedKey : Type 0 where
  rsa_key : PublicKey → ParsedKey
  other_key : ParsedKey

pub record Codec : Type 0 where
  -- `pem.Encode`, and `pem.Decode`: the first block and what follows it
  pub encode : Block → Bytes
  pub decode : Bytes → Option (Block × Bytes)
  pub marshal_private : PrivateKey → Bytes
  pub parse_private : Bytes → Option PrivateKey
  pub marshal_public : PublicKey → Option Bytes
  pub parse_public : Bytes → Option ParsedKey

-- The kinds of blocks that the program writes
abbrev pub IsKind : String → Type 0
IsKind kind = (kind ≡ "PUBLIC KEY") ⊎ (kind ≡ "PRIVATE KEY")

-- What the documentation of the two packages promises
pub record IsCodec (c : Codec) : Type 0 where
  pub decode-encode :
      (b : Block) (rest : Bytes) → IsKind b.kind → c.decode (c.encode b ++ rest) ≡ some (b, rest)
  pub encode_nonempty : (b : Block) → 0 < length (c.encode b)
  pub decode_shrinks :
      (text : Bytes) (b : Block) (rest : Bytes)
      → c.decode text ≡ some (b, rest)
      → length rest < length text
  pub parse-marshal_private : (k : PrivateKey) → c.parse_private (c.marshal_private k) ≡ some k
  pub parse-marshal_public :
      (k : PublicKey) (bytes : Bytes)
      → c.marshal_public k ≡ some bytes
      → c.parse_public bytes ≡ some (rsa_key k)

abbrev no_key : Error
no_key = new "pem encoded key file did not include a pub and private key"

abbrev invalid : Error
invalid = new "invalid pem encoded key file"

module _ (c : Codec) where
  unfoldable pub write_private_key : PrivateKey → Bytes
  write_private_key key = c.encode (record { kind = "PRIVATE KEY"; bytes = c.marshal_private key })

  abbrev write_block : Bytes → Bytes
  write_block bytes = c.encode (record { kind = "PUBLIC KEY"; bytes = bytes })

  unfoldable pub write_public_key : PublicKey → Result Bytes
  write_public_key key =
      wrapping "failed to marshal public key of keypair: " (of_option "x509" (c.marshal_public key))
      >>= λ bytes. ok (write_block bytes)

  abbrev parsed_public : Option ParsedKey → Result PublicKey
  parsed_public none = err (new "unable to parse Public key from block")
  parsed_public (some other_key) = err (new "key block is not an rsa key")
  parsed_public (some (rsa_key k)) = ok k

  abbrev parsed_private : Option PrivateKey → Result PrivateKey
  parsed_private none = err (new "unable to parse private key from block")
  parsed_private (some k) = ok k

  -- The loop over the blocks of the text, which both readers write out: the first block of the kind is
  -- parsed, and blocks of other kinds are passed over. `none` means that the fuel ran out.
  abbrev block_of_kind :
      {A : Type 0} (parse : Bytes → Result A) (more : Bytes → Option (Result A)) (b : Block)
      (rest : Bytes)
      → Bool
      → Option (Result A)
  block_of_kind parse more b rest true = some (parse b.bytes)
  block_of_kind parse more b rest false = more rest

  abbrev decoded :
      {A : Type 0} (kind : String) (parse : Bytes → Result A) (more : Bytes → Option (Result A))
      → Option (Block × Bytes)
      → Option (Result A)
  decoded kind parse more none = some (err invalid)
  decoded kind parse more (some (b, rest)) = block_of_kind parse more b rest (b.kind == kind)

  unfoldable pub read_blocks :
      {A : Type 0} → String → (Bytes → Result A) → ℕ → Bytes → Option (Result A)
  read_blocks kind parse zero rest = none
  read_blocks kind parse (suc fuel) [] = some (err no_key)
  read_blocks kind parse (suc fuel) (x ∷ rest) =
      decoded kind parse (read_blocks kind parse fuel) (c.decode (x ∷ rest))

  -- Each round takes a byte at least.
  unfoldable pub read_public_key : Bytes → Option (Result PublicKey)
  read_public_key text =
      read_blocks "PUBLIC KEY" (λ b. parsed_public (c.parse_public b)) (suc (length text)) text

  unfoldable pub read_keypair : Bytes → Option (Result PrivateKey)
  read_keypair text =
      read_blocks "PRIVATE KEY" (λ b. parsed_private (c.parse_private b)) (suc (length text)) text
