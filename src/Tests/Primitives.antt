-- ===== src/Tests/Primitives.antt =====
-- The theorems of Models, Crypto and File.Storage at concrete inputs.
use peerstore.Base.{
  ◌+◌, ◌%◌, ◌≡◌, ◌<◌, ◌≤◌, refl, arith, none, some, [], ◌∷◌, ◌++◌, Bytes, nat_eq, bytes_eq,
  string_eq, replicate, length,
}
use peerstore.Base.{All}
use peerstore.Base.Result.{ok}
use peerstore.Models.Node.{Identifier, Node}
use peerstore.Models.Clock.{receive_all}
use peerstore.Models.Clock.Laws.{receive_all-later}
use peerstore.Models.FingerTable.{Interval}
use peerstore.Crypto.Aes.{encrypt_with_iv, encrypt, decrypt, valid_key}
use peerstore.Crypto.Aes.Laws.{decrypt-encrypt}
use peerstore.Crypto.Pem.{write_public_key, write_private_key, read_public_key, read_keypair}
use peerstore.Crypto.Pem.Laws.{read-write_keys}
use peerstore.Tests.ShortCodec.{short_codec, short_codec-IsCodec}
use peerstore.Tests.Instances.{plain_cbc, plain_cbc-IsCbc, ones, own_key}

read-write_keys_example :
    (text : Bytes) × (write_public_key short_codec own_key.public ≡ ok text)
    × (read_public_key short_codec text ≡ some (ok own_key.public))
    × (read_public_key short_codec (write_private_key short_codec own_key ++ text)
        ≡ some (ok own_key.public))
    × (read_keypair short_codec (write_private_key short_codec own_key ++ text) ≡ some (ok own_key))
read-write_keys_example = read-write_keys short_codec short_codec-IsCodec own_key (33 ∷ 3 ∷ []) refl

decrypt-encrypt_example :
    (ciphertext : Bytes) × (encrypt_with_iv plain_cbc ones (7 ∷ []) ones ≡ ok (ciphertext, ones))
    × (encrypt plain_cbc (some ones) ones (7 ∷ []) ≡ ok (ciphertext, ones))
    × (length ciphertext % 16 ≡ 0)
    × (decrypt plain_cbc ones ciphertext ones ≡ ok (some (7 ∷ [])))
unfolding valid_key
decrypt-encrypt_example = decrypt-encrypt plain_cbc plain_cbc-IsCbc ones (7 ∷ []) ones refl refl

abbrev one_byte : Bytes
one_byte = 1 ∷ []

receive_all-later_example :
    (4 ≤ receive_all 4 (9 ∷ 2 ∷ []))
    × All (λ b. b < receive_all 4 (9 ∷ 2 ∷ [])) (9 ∷ 2 ∷ [])
    × (receive_all 4 (9 ∷ 2 ∷ []) ≤ 9 + 2)
receive_all-later_example =
    receive_all-later (9 ∷ 2 ∷ []) 4 9 (omega arith) (omega arith, (omega arith, tt)) (omega arith)

abbrev whole_ring : Interval
whole_ring = record { low = 0; high = 0 }

abbrev first_id : Identifier
first_id = replicate 20 1

abbrev node_of : Identifier → Node
node_of id = record { id = id; addr = ""; public_key = none }

bytes_of_first : All (λ b. b < 256) first_id
bytes_of_first = ground arith
