-- ===== src/Tests/ShortCodec.antt =====
-- A codec of PEM blocks that keeps what the libraries promise.
use peerstore.Base.{
  ℕ, ◌≡◌, ◌<◌, inl, inr, refl, ap, sym, arith, Option, none, some, [], ◌∷◌, ◌++◌, Bytes, ◌==◌,
  nat_eq, bytes_eq, string_eq, length,
}
use peerstore.Base.{String, if◌then◌else◌, take, drop, length-drop, take-append, drop-append}
use peerstore.Models.Node.{PublicKey, PrivateKey}
use peerstore.Models.FingerTable.{}
use peerstore.Crypto.Pem.{Block, Codec, IsCodec, IsKind, ParsedKey, rsa_key}

-- A block as its kind, the number of its bytes, and the bytes
abbrev kind_byte : String → ℕ
kind_byte kind = if kind == "PUBLIC KEY" then 1 else 2

abbrev kind_of : ℕ → String
kind_of k = if k == 1 then "PUBLIC KEY" else "PRIVATE KEY"

abbrev decode_block : Bytes → Option (Block × Bytes)
decode_block [] = none
decode_block (k ∷ []) = none
decode_block (k ∷ (n ∷ bs)) = some (record { kind = kind_of k; bytes = take n bs }, drop n bs)

abbrev private_of : Bytes → Option PrivateKey
private_of (m ∷ (e ∷ (d ∷ []))) =
    some (record { public = record { modulus = m; exponent = e }; secret = d })
private_of bs = none

abbrev public_of : Bytes → Option ParsedKey
public_of (m ∷ (e ∷ [])) = some (rsa_key (record { modulus = m; exponent = e }))
public_of bs = none

abbrev pub short_codec : Codec
short_codec = record {
  encode = λ b. kind_byte b.kind ∷ (length b.bytes ∷ b.bytes);
  decode = decode_block;
  marshal_private = λ k. k.public.modulus ∷ (k.public.exponent ∷ (k.secret ∷ []));
  parse_private = private_of;
  marshal_public = λ k. some (k.modulus ∷ (k.exponent ∷ []));
  parse_public = public_of;
}

kind_of-byte : (kind : String) → IsKind kind → kind_of (kind_byte kind) ≡ kind
kind_of-byte kind (inl e) = rw e
kind_of-byte kind (inr e) = rw e

short_codec-back :
    (b : Block) (rest : Bytes)
    → IsKind b.kind
    → decode_block (kind_byte b.kind ∷ (length b.bytes ∷ (b.bytes ++ rest))) ≡ some (b, rest)
short_codec-back b rest w = rw (
  kind_of-byte b.kind w,
  take-append (length b.bytes) b.bytes rest refl,
  drop-append (length b.bytes) b.bytes rest refl,
)

decode_block-shrinks :
    (text : Bytes) (b : Block) (rest : Bytes)
    → decode_block text ≡ some (b, rest)
    → length rest < length text
decode_block-shrinks [] b rest h = cc
decode_block-shrinks (k ∷ []) b rest h = cc
decode_block-shrinks (k ∷ (n ∷ bs)) b rest h =
    let cut : drop n bs ≡ rest = cc in rw (← cut) (omega (arith, length-drop n bs))

public_back :
    (k : PublicKey) (bytes : Bytes)
    → some (k.modulus ∷ (k.exponent ∷ [])) ≡ some bytes
    → public_of bytes ≡ some (rsa_key k)
public_back k bytes h =
    let same : k.modulus ∷ (k.exponent ∷ []) ≡ bytes = cc in ap public_of (sym same)

pub short_codec-IsCodec : IsCodec short_codec
short_codec-IsCodec = record {
  decode-encode = short_codec-back;
  encode_nonempty = λ b. omega arith;
  decode_shrinks = decode_block-shrinks;
  parse-marshal_private = λ k. refl;
  parse-marshal_public = public_back;
}
