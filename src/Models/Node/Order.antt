-- ===== src/Models/Node/Order.antt =====
-- `Compare` tells distinct identifiers apart, and `KeyToID` does not.
use native.Mathlib.Omega.{arith}
use peerstore.Base.{ℕ, ◌+◌, ◌*◌, ◌<◌, ◌≡◌, ◌↔◌, refl, ap, Bytes, length, All}
use peerstore.Base.{compare, Ordering, [], ◌∷◌, ◌++◌}
use peerstore.Models.Node.{Node, IsByte, IsIdentifier, big_int, big_int_from, compare_node}
use peerstore.Models.Node.{key_to_id}

big_int_from-injective :
    (xs ys : Bytes) (a b : ℕ)
    → length xs ≡ length ys
    → All IsByte xs
    → All IsByte ys
    → big_int_from a xs ≡ big_int_from b ys
    → (a ≡ b) × (xs ≡ ys)
unfolding big_int_from
big_int_from-injective [] [] a b h hx hy e = (e, refl)
big_int_from-injective [] (y ∷ ys) a b h hx hy e = absurd (omega arith)
big_int_from-injective (x ∷ xs) [] a b h hx hy e = absurd (omega arith)
big_int_from-injective (x ∷ xs) (y ∷ ys) a b h (bx, hx) (by, hy) e =
    let ih = big_int_from-injective xs ys (a * 256 + x) (b * 256 + y) (omega arith) hx hy e in
    (omega (arith, ih.0), cc (ih.1, let d : x ≡ y = omega (arith, ih.0) in d))

compare-eq_iff : (a b : ℕ) → (compare a b ≡ Ordering.eq) ↔ (a ≡ b)
compare-eq_iff a b = ground arith

-- On 20-byte identifiers `Compare` answers 0 exactly for equal identifiers.
pub compare_node-eq_iff :
    (n n' : Node)
    → IsIdentifier n.id
    → IsIdentifier n'.id
    → (compare_node n n' ≡ Ordering.eq) ↔ (n.id ≡ n'.id)
unfolding compare_node big_int
compare_node-eq_iff n n' (l, b) (l', b') = (
  λ e. (big_int_from-injective n.id n'.id 0 0 (omega arith) b b' ((compare-eq_iff _ _).0 e)).1,
  λ e. (compare-eq_iff _ _).1 (ap (big_int_from 0) e),
)

big_int_from-append :
    (xs ys : Bytes) (acc : ℕ) → big_int_from acc (xs ++ ys) ≡ big_int_from (big_int_from acc xs) ys
unfolding big_int_from
big_int_from-append [] ys acc = refl
big_int_from-append (x ∷ xs) ys acc = big_int_from-append xs ys (acc * 256 + x)

-- Identifiers that agree but for a last byte that differs by 160 have the same place on the ring.
pub key_to_id_collision :
    (prefix : Bytes) (b : ℕ) → key_to_id (prefix ++ b ∷ []) ≡ key_to_id (prefix ++ (b + 160) ∷ [])
unfolding key_to_id big_int big_int_from
key_to_id_collision prefix b =
    rw (big_int_from-append prefix (b ∷ []) 0, big_int_from-append prefix ((b + 160) ∷ []) 0)
      (omega arith)

pub key_to_id-lt : (id : Bytes) → key_to_id id < 160
unfolding key_to_id
key_to_id-lt id = omega arith
