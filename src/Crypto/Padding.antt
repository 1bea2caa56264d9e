-- ===== src/Crypto/Padding.antt =====
-- `padPKCS7` and `unpadPKCS7` of crypto/aes.go. A nil slice is `none`.
pub mod Laws
use peerstore.Base.{
  ℕ, zero, suc, ◌+◌, ◌-◌, ◌%◌, Bool, true, false, ◌||◌, Option, none, some, List, [], ◌∷◌, ◌++◌,
}
use peerstore.Base.{Bytes, length, take, get_elem?, ltb, ◌==◌, nat_eq, if◌then◌else◌}

-- The loop that appends `byte(padding)`, over the rounds left
unfoldable pub pad_loop : ℕ → ℕ → Bytes → Bytes
pad_loop zero padding bytes = bytes
pad_loop (suc n) padding bytes = pad_loop n padding (bytes ++ padding ∷ [])

unfoldable pub pad_pkcs7 : Bytes → Bytes
unfolding pad_loop
pad_pkcs7 bytes = let padding = 16 - length bytes % 16 in pad_loop padding (padding % 256) bytes

abbrev has_byte : Option ℕ → ℕ → Bool
has_byte none b = false
has_byte (some a) b = a == b

-- `for i := len(in) - 1; i > len(in)-int(padding)-1; i--`, over the rounds left; the index stays in the
-- slice.
unfoldable pub check_loop : Bytes → ℕ → ℕ → ℕ → Bool
check_loop bytes padding zero i = true
check_loop bytes padding (suc n) i =
    if has_byte (get_elem? bytes i) padding then check_loop bytes padding n (i - 1) else false

abbrev unpad_last : Bytes → Option ℕ → Option Bytes
unpad_last bytes none = none
unpad_last bytes (some padding) =
    if ltb (length bytes) padding || ltb 16 padding
    then none
    else if padding == 0
    then none
    else if check_loop bytes padding padding (length bytes - 1)
    then some (take (length bytes - padding) bytes)
    else none

unfoldable pub unpad_pkcs7 : Bytes → Option Bytes
unfolding check_loop
unpad_pkcs7 bytes = unpad_last bytes (get_elem? bytes (length bytes - 1))
