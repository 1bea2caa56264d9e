-- ===== src/Models/Node.antt =====
-- Identifiers, keys and nodes. An `Identifier` is a `[20]byte`: a list of bytes, of length 20 where
-- `IsIdentifier` holds. A pointer that may be nil is an `Option`.
pub mod Order
use peerstore.Base.{ℕ, ◌+◌, ◌*◌, ◌%◌, ◌<◌, String, ◌≡◌, Bytes, length, All, replicate, compare}
use peerstore.Base.{Ordering, Option, none, List, [], ◌∷◌}

abbrev pub Identifier : Type 0
Identifier = Bytes

abbrev pub IsByte : ℕ → Type 0
IsByte b = b < 256

abbrev pub IsIdentifier : Identifier → Type 0
IsIdentifier id = (length id ≡ 20) × All IsByte id

-- The zero value `Identifier{}`
abbrev pub zero_identifier : Identifier
zero_identifier = replicate 20 0

-- `rsa.PublicKey` of Go's library
pub record PublicKey : Type 0 where
  pub modulus : ℕ
  pub exponent : ℕ

-- `rsa.PrivateKey`: the public key, which `Public()` returns, and the private exponent
pub record PrivateKey : Type 0 where
  pub public : PublicKey
  pub secret : ℕ

pub record Node : Type 0 where
  pub id : Identifier
  pub addr : String
  pub public_key : Option PublicKey

-- `models.Node{}`
abbrev pub zero_node : Node
zero_node = record { id = zero_identifier; addr = ""; public_key = none }

-- `big.NewInt(0).SetBytes(b)`: the big-endian number
unfoldable pub big_int_from : ℕ → Bytes → ℕ
big_int_from acc [] = acc
big_int_from acc (b ∷ bs) = big_int_from (acc * 256 + b) bs

unfoldable pub big_int : Bytes → ℕ
unfolding big_int_from
big_int bs = big_int_from 0 bs

-- `M`, the number of entries of a finger table, and the modulus that `KeyToID` takes
abbrev pub table_size : ℕ
table_size = 160

unfoldable pub key_to_id : Identifier → ℕ
unfolding big_int
key_to_id key = big_int key % 160

-- `big.Int.Cmp` answers -1, 0 or 1: `lt`, `eq` or `gt`.
unfoldable pub compare_id : Node → Identifier → Ordering
compare_id n id = compare (big_int n.id) (big_int id)

unfoldable pub compare_node : Node → Node → Ordering
compare_node n n' = compare (big_int n.id) (big_int n'.id)
