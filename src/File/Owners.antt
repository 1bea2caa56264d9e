-- ===== src/File/Owners.antt =====
-- The owner header of a stored file in file/handlers.go: a byte that counts the owners, then for each
-- the 20 bytes of the identifier and the 256 of the encrypted session key; then the data.
pub mod RoundTrip
pub mod Holds
use peerstore.Base.{ℕ, zero, suc, ◌+◌, ◌%◌, ◌<◌, ◌≡◌, Bool, true, false, Option, none, some}
use peerstore.Base.{List, [], ◌∷◌, ◌++◌, Bytes, length, take, drop, All, ltb, ◌==◌, bytes_eq}
use peerstore.Base.{if◌then◌else◌}
use peerstore.Models.Node.{Identifier}
use peerstore.Protocol.Message.{SharedSecret}

-- `idSecret`
pub record IdSecret : Type 0 where
  pub id : Identifier
  pub secret : Bytes

-- `sessionKeyLen`
abbrev pub session_key_len : ℕ
session_key_len = 256

-- A read of `n` bytes that is checked by `n != len`: a file yields fewer only at its end.
unfoldable pub read : ℕ → Bytes → Option (Bytes × Bytes)
read n content = if ltb (length content) n then none else some (take n content, drop n content)

abbrev pub bind {ℓ κ} : {A : Type ℓ} {B : Type κ} → Option A → (A → Option B) → Option B
bind none f = none
bind (some a) f = f a

-- The loop `for i := byte(0); i < ownerCount[0]; i++`, with what it has collected
unfoldable pub read_pairs : ℕ → List IdSecret → Bytes → Option (List IdSecret × Bytes)
read_pairs zero pairs content = some (pairs, content)
read_pairs (suc n) pairs content = bind (read 20 content) λ a.
    bind (read session_key_len a.1)
      λ b. read_pairs n (pairs ++ record { id = a.0; secret = b.0 } ∷ []) b.1

-- The owners and the data of a file, or `none` where a read of the header fails
unfoldable pub read_owners : Bytes → Option (List IdSecret × Bytes)
read_owners [] = none
read_owners (count ∷ content) = read_pairs count [] content

-- The loop over `idSecrets`: the secret of the last pair of this identifier, if there is one
unfoldable pub find_secret : Identifier → Option Bytes → List IdSecret → Option Bytes
find_secret from so_far [] = so_far
find_secret from so_far (p ∷ ps) =
    find_secret from (if p.id == from then some p.secret else so_far) ps

abbrev pub secret_of : Identifier → List IdSecret → Option Bytes
secret_of from pairs = find_secret from none pairs

-- The bytes that the loops over `idSecrets` and over `SharedWith` append to the header
unfoldable pub pair_bytes : List IdSecret → Bytes
pair_bytes [] = []
pair_bytes (p ∷ ps) = p.id ++ (p.secret ++ pair_bytes ps)

unfoldable pub shared_bytes : List SharedSecret → Bytes
shared_bytes [] = []
shared_bytes (p ∷ ps) = p.id ++ (p.secret ++ shared_bytes ps)

-- The header of a new file. `byte(1 + len(r.Header.SharedWith))` keeps the low eight bits.
unfoldable pub new_header : Identifier → Bytes → List SharedSecret → Bytes
new_header from secret shared =
    ((1 + length shared) % 256) ∷ (from ++ (secret ++ shared_bytes shared))

-- The header of a file that had owners
unfoldable pub old_header : List IdSecret → List SharedSecret → Bytes
old_header pairs shared =
    ((length pairs + length shared) % 256) ∷ (pair_bytes pairs ++ shared_bytes shared)

-- A pair that takes the place that the header's layout has for it
abbrev pub Fits : IdSecret → Type 0
Fits p = (length p.id ≡ 20) × (length p.secret ≡ 256)

abbrev pub AllFit : List IdSecret → Type 0
AllFit = All Fits

-- A `SharedSecret` of a request as the pair that a reader gets back
unfoldable pub as_pairs : List SharedSecret → List IdSecret
as_pairs [] = []
as_pairs (s ∷ ss) = record { id = s.id; secret = s.secret } ∷ as_pairs ss

-- The owners of a file that is created by `from`
abbrev pub owners_of_new : Identifier → Bytes → List SharedSecret → List IdSecret
owners_of_new from secret shared = record { id = from; secret = secret } ∷ as_pairs shared
