-- ===== src/Crypto/Padding/Laws.antt =====
-- Unpadding is the inverse of padding, and accepts nothing else.
use peerstore.Base.{
  ℕ, zero, suc, ◌+◌, ◌-◌, ◌%◌, ◌<◌, ◌≤◌, ◌≡◌, refl, sym, ap, ◌∙◌, true, Option, none, some, arith,
}
use peerstore.Base.{
  [], ◌∷◌, ◌++◌, append_assoc, append-nil, Bytes, length, take, drop, replicate, get_elem?,
}
use peerstore.Base.{
  length-append, length-replicate, length-take, take-append, take-append-drop, take-suc, take_all,
}
use peerstore.Base.{
  length-drop, replicate-snoc, get_elem?-drop, get_elem?-append, get_elem?-replicate, nat_eq,
}
use peerstore.Crypto.Padding.{pad_loop, pad_pkcs7, check_loop, unpad_pkcs7, unpad_last}

pad_loop-replicate : (n b : ℕ) (bytes : Bytes) → pad_loop n b bytes ≡ bytes ++ replicate n b
unfolding pad_loop
pad_loop-replicate zero b bytes = rw append-nil
pad_loop-replicate (suc n) b bytes =
    pad_loop-replicate n b (bytes ++ b ∷ []) ∙ rw (append_assoc bytes (b ∷ []) (replicate n b))

-- The padding appends the number of missing bytes, 1 to 16, that many times.
pub pad_pkcs7-replicate :
    (bytes : Bytes)
    → pad_pkcs7 bytes ≡ bytes ++ replicate (16 - length bytes % 16) (16 - length bytes % 16)
unfolding pad_pkcs7
pad_pkcs7-replicate bytes =
    let small : (16 - length bytes % 16) % 256 ≡ 16 - length bytes % 16 = omega arith in
    rw small (pad_loop-replicate _ _ bytes)

pub length-pad_pkcs7 :
    (bytes : Bytes)
    → (length (pad_pkcs7 bytes) % 16 ≡ 0)
      × (length bytes < length (pad_pkcs7 bytes))
      × (length (pad_pkcs7 bytes) ≤ length bytes + 16)
length-pad_pkcs7 bytes =
    let n = 16 - length bytes % 16 in
    rw (pad_pkcs7-replicate, length-append bytes (replicate n n), length-replicate n n)
      (omega arith, omega arith, omega arith)

padded_byte :
    (bytes : Bytes) (m b n i : ℕ)
    → n < m
    → i ≡ length bytes + n
    → get_elem? (bytes ++ replicate m b) i ≡ some b
padded_byte bytes m b n i h e =
    rw (e, get_elem?-append bytes (replicate m b) n) (get_elem?-replicate m n b h)

check_loop-padded :
    (bytes : Bytes) (m b n i : ℕ)
    → n ≤ m
    → i + 1 ≡ length bytes + n
    → check_loop (bytes ++ replicate m b) b n i ≡ true
unfolding check_loop
check_loop-padded bytes m b zero i h e = refl
check_loop-padded bytes m b (suc zero) i h e =
    ground (arith, padded_byte bytes m b 0 i (omega arith) (omega arith))
check_loop-padded bytes m b (suc (suc n)) i h e = ground (
  arith,
  padded_byte bytes m b (suc n) i (omega arith) (omega arith),
  check_loop-padded bytes m b (suc n) (i - 1) (omega arith) (omega arith),
)

unpad_padded :
    (bytes : Bytes) (p : ℕ) → 1 ≤ p → p ≤ 16 → unpad_pkcs7 (bytes ++ replicate p p) ≡ some bytes
unfolding unpad_pkcs7
unpad_padded bytes p h k =
    let len : length (bytes ++ replicate p p) ≡ length bytes + p =
      length-append bytes (replicate p p)
      ∙ ap (λ (n : ℕ). length bytes + n) (length-replicate p p) in
    ground (
      arith,
      len,
      padded_byte bytes p p (p - 1) (length (bytes ++ replicate p p) - 1) (omega arith)
          (omega arith),
      check_loop-padded bytes p p p (length (bytes ++ replicate p p) - 1) (omega arith)
          (omega arith),
      take-append (length (bytes ++ replicate p p) - p) bytes (replicate p p) (omega arith),
    )

-- Unpadding what was padded gives the bytes back.
pub unpad-pad : (bytes : Bytes) → unpad_pkcs7 (pad_pkcs7 bytes) ≡ some bytes
unpad-pad bytes =
    rw (pad_pkcs7-replicate bytes)
      (unpad_padded bytes (16 - length bytes % 16) (omega arith) (omega arith))

-- The rounds of the check that pass leave the last bytes equal to the padding byte.
check_loop-replicate :
    (bytes : Bytes) (b n i : ℕ)
    → check_loop bytes b n i ≡ true
    → n ≤ i + 1
    → take n (drop (i + 1 - n) bytes) ≡ replicate n b
unfolding check_loop
check_loop-replicate bytes b zero i h k = refl
check_loop-replicate bytes b (suc zero) i h k = take-suc 0 (drop (i + 1 - 1) bytes) b (
    get_elem?-drop (i + 1 - 1) 0 bytes
    ∙ (let e : i + 1 - 1 + 0 ≡ i = omega arith in rw e (ground arith)))
check_loop-replicate bytes b (suc (suc n)) i h k =
    let ih = check_loop-replicate bytes b (suc n) (i - 1) (ground arith) (omega arith) in
    let at : i + 1 - suc (suc n) ≡ i - 1 + 1 - suc n = omega arith in
    let last : get_elem? (drop (i + 1 - suc (suc n)) bytes) (suc n) ≡ some b =
      get_elem?-drop (i + 1 - suc (suc n)) (suc n) bytes
      ∙ (let e : i + 1 - suc (suc n) + suc n ≡ i = omega arith in rw e (ground arith)) in
    take-suc (suc n) (drop (i + 1 - suc (suc n)) bytes) b last
    ∙ rw (at, ih) (replicate-snoc (suc n) b)

unpad_last-facts :
    (y x : Bytes) (o : Option ℕ)
    → unpad_last y o ≡ some x
    → (p : ℕ) × (1 ≤ p)
      × (p ≤ 16)
      × (p ≤ length y)
      × (check_loop y p p (length y - 1) ≡ true)
      × (x ≡ take (length y - p) y)
unpad_last-facts y x none h = cc
unpad_last-facts y x (some p) h =
    (p, ground arith, ground arith, ground arith, ground arith, ground arith)

-- What unpads to `x`, being whole blocks, is the padded `x`: nothing else is accepted.
pub unpad-some : (y x : Bytes) → length y % 16 ≡ 0 → unpad_pkcs7 y ≡ some x → y ≡ pad_pkcs7 x
unfolding unpad_pkcs7
unpad-some y x whole h =
    let (p, lo, hi, fits, same, cut) = unpad_last-facts y x _ h in
    let tail : drop (length y - p) y ≡ replicate p p =
      sym (take_all p (drop (length y - p) y) (omega (arith, length-drop (length y - p) y)))
      ∙ (let e : length y - 1 + 1 - p ≡ length y - p = omega arith in
          rw e at (check_loop-replicate y p p (length y - 1) same (omega arith))) in
    let count : 16 - length x % 16 ≡ p = rw cut (omega (arith, length-take (length y - p) y)) in
    sym (take-append-drop (length y - p) y) ∙ rw (pad_pkcs7-replicate x, count, tail, cut)
