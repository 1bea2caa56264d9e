-- ===== src/File/Handlers/Reading.antt =====
-- The loop that reads the rest of a file ends, with all of it.
use peerstore.Base.{ℕ, zero, suc, ◌<◌, ◌≡◌, ◌∙◌, some, [], ◌∷◌, ◌++◌, arith}
use peerstore.Base.{
  append-nil, append_assoc, Bytes, length, take, drop, length-drop, take-append-drop,
}
use peerstore.File.Handlers.{read_loop, read_rest}

read_loop-append :
    (fuel : ℕ) (rest collected : Bytes)
    → length rest < fuel
    → read_loop fuel rest collected ≡ some (collected ++ rest)
unfolding read_loop
read_loop-append zero rest collected h = elim h [ ]
read_loop-append (suc fuel) [] collected h = rw append-nil
read_loop-append (suc fuel) (b ∷ rest) collected h =
    read_loop-append fuel (drop 256 (b ∷ rest)) (collected ++ take 256 (b ∷ rest))
      (omega (arith, length-drop 256 (b ∷ rest)))
    ∙ rw (
      append_assoc collected (take 256 (b ∷ rest)) (drop 256 (b ∷ rest)),
      take-append-drop 256 (b ∷ rest),
    )

-- Reading to the end yields every byte, on every file.
pub read_rest-some : (rest : Bytes) → read_rest rest ≡ some rest
unfolding read_rest
read_rest-some rest = read_loop-append (suc (length rest)) rest [] (omega arith)
