-- ===== src/File/Owners/RoundTrip.antt =====
-- A header that was written is read back.
use peerstore.Base.{ℕ, suc, ◌+◌, ◌%◌, ◌<◌, ◌≡◌, refl, sym, ap, ◌∙◌, some, arith}
use peerstore.Base.{List, [], ◌∷◌, ◌++◌, append-nil, append_assoc, Bytes, length}
use peerstore.Base.{length-append, take-append, drop-append}
use peerstore.Protocol.Message.{SharedSecret}
use peerstore.Models.Node.{Identifier}
use peerstore.File.Owners.{IdSecret, read, read_pairs, read_owners, pair_bytes, shared_bytes}
use peerstore.File.Owners.{new_header, old_header, as_pairs, owners_of_new, AllFit}

pub read-append : (n : ℕ) (xs ys : Bytes) → length xs ≡ n → read n (xs ++ ys) ≡ some (xs, ys)
unfolding read
read-append n xs ys h =
    ground (arith, length-append xs ys, take-append n xs ys h, drop-append n xs ys h)

read_pairs-pair_bytes :
    (ps so_far : List IdSecret) (rest : Bytes)
    → AllFit ps
    → read_pairs (length ps) so_far (pair_bytes ps ++ rest) ≡ some (so_far ++ ps, rest)
unfolding read_pairs pair_bytes
read_pairs-pair_bytes [] so_far rest h = rw append-nil
read_pairs-pair_bytes (p ∷ ps) so_far rest ((i, s), hs) =
    rw
      (
        append_assoc p.id (p.secret ++ pair_bytes ps) rest,
        append_assoc p.secret (pair_bytes ps) rest,
        read-append 20 p.id (p.secret ++ (pair_bytes ps ++ rest)) i,
        read-append 256 p.secret (pair_bytes ps ++ rest) s,
      )
      (read_pairs-pair_bytes ps (so_far ++ p ∷ []) rest hs ∙ rw (append_assoc so_far (p ∷ []) ps))

pub pair_bytes-append :
    (ps qs : List IdSecret) → pair_bytes (ps ++ qs) ≡ pair_bytes ps ++ pair_bytes qs
unfolding pair_bytes
pair_bytes-append [] qs = refl
pair_bytes-append (p ∷ ps) qs = rw (pair_bytes-append ps qs) (simp append_assoc)

pub shared_bytes-as_pairs : (ss : List SharedSecret) → shared_bytes ss ≡ pair_bytes (as_pairs ss)
unfolding shared_bytes pair_bytes as_pairs
shared_bytes-as_pairs [] = refl
shared_bytes-as_pairs (s ∷ ss) = rw (shared_bytes-as_pairs ss)

pub length-as_pairs : (ss : List SharedSecret) → length (as_pairs ss) ≡ length ss
unfolding as_pairs
length-as_pairs [] = refl
length-as_pairs (s ∷ ss) = ap suc (length-as_pairs ss)

-- The count, the pairs and then any data: what is read is the pairs and the data.
pub read_owners-pairs :
    (ps : List IdSecret) (data_bytes : Bytes)
    → AllFit ps
    → read_owners (length ps ∷ (pair_bytes ps ++ data_bytes)) ≡ some (ps, data_bytes)
unfolding read_owners
read_owners-pairs ps data_bytes h = read_pairs-pair_bytes ps [] data_bytes h

-- A new file with at most 254 users that it is shared with is read as its creator, those users, and the
-- data.
pub read_owners-new_header :
    (from : Identifier) (secret : Bytes) (shared : List SharedSecret) (data_bytes : Bytes)
    → AllFit (owners_of_new from secret shared)
    → length shared < 255
    → read_owners (new_header from secret shared ++ data_bytes)
      ≡ some (owners_of_new from secret shared, data_bytes)
unfolding new_header pair_bytes
read_owners-new_header from secret shared data_bytes h l =
    let count : (1 + length shared) % 256 ≡ length (owners_of_new from secret shared) =
      omega (arith, length-as_pairs shared) in
    rw (count, shared_bytes-as_pairs shared)
      (read_owners-pairs (owners_of_new from secret shared) data_bytes h)

-- The header that a second post writes is read as the owners so far and then the new ones, if they are
-- at most 255.
pub read_owners-old_header :
    (ps : List IdSecret) (shared : List SharedSecret) (data_bytes : Bytes)
    → AllFit (ps ++ as_pairs shared)
    → length ps + length shared < 256
    → read_owners (old_header ps shared ++ data_bytes) ≡ some (ps ++ as_pairs shared, data_bytes)
unfolding old_header
read_owners-old_header ps shared data_bytes h l =
    let count : (length ps + length shared) % 256 ≡ length (ps ++ as_pairs shared) =
      omega (arith, length-as_pairs shared, length-append ps (as_pairs shared)) in
    rw (count, shared_bytes-as_pairs shared, sym (pair_bytes-append ps (as_pairs shared)))
      (read_owners-pairs (ps ++ as_pairs shared) data_bytes h)
