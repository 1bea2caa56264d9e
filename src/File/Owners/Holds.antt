-- ===== src/File/Owners/Holds.antt =====
-- Who owns a file: `secret_of` finds a secret exactly for the identifiers of the header's pairs.
use peerstore.Base.{ℕ, zero, suc, ◌≡◌, ◌⊎◌, inl, inr, refl, Option, none, some, arith}
use peerstore.Base.{List, [], ◌∷◌, ◌++◌, Bytes, length, length-take, length-append, Bool-cases}
use peerstore.Base.{◌==◌, bytes_eq, bytes_beq_iff, ◌+◌}
use peerstore.Base.{if◌then◌else◌}
use peerstore.Models.Node.{Identifier}
use peerstore.File.Owners.{IdSecret, find_secret, secret_of, read, bind, read_pairs, read_owners}
use peerstore.File.Owners.{AllFit}

-- A pair of the list has this identifier.
abbrev pub Owns : Identifier → List IdSecret → Type 0
Owns u [] = ⊥
Owns u (p ∷ ps) = (p.id ≡ u) ⊎ Owns u ps

pub Owns-append : (u : Identifier) (ps qs : List IdSecret) → Owns u ps → Owns u (ps ++ qs)
Owns-append u [] qs h = elim h [ ]
Owns-append u (p ∷ ps) qs (inl e) = inl e
Owns-append u (p ∷ ps) qs (inr h) = inr (Owns-append u ps qs h)

find_secret-some :
    (u : Identifier) (ps : List IdSecret) (s : Bytes)
    → (t : Bytes) × (find_secret u (some s) ps ≡ some t)
unfolding find_secret
find_secret-some u [] s = (s, refl)
find_secret-some u (p ∷ ps) s = elim (Bool-cases (p.id == u)) [
  | inl e ↦ rw e (find_secret-some u ps p.secret)
  | inr e ↦ rw e (find_secret-some u ps s)
]

-- An owner has a secret in the header.
pub secret_of-Owns :
    (u : Identifier) (ps : List IdSecret) → Owns u ps → (t : Bytes) × (secret_of u ps ≡ some t)
unfolding find_secret
secret_of-Owns u [] h = elim h [ ]
secret_of-Owns u (p ∷ ps) (inl e) = rw ((bytes_beq_iff p.id u).1 e) (find_secret-some u ps p.secret)
secret_of-Owns u (p ∷ ps) (inr h) = elim (Bool-cases (p.id == u)) [
  | inl e ↦ rw e (find_secret-some u ps p.secret)
  | inr e ↦ rw e (secret_of-Owns u ps h)
]

-- Nobody else has one.
pub secret_of-none : (u : Identifier) (ps : List IdSecret) → ¬ (Owns u ps) → secret_of u ps ≡ none
unfolding find_secret
secret_of-none u [] h = refl
secret_of-none u (p ∷ ps) h = elim (Bool-cases (p.id == u)) [
  | inl e ↦ absurd (h (inl ((bytes_beq_iff p.id u).0 e)))
  | inr e ↦ rw e (secret_of-none u ps (λ o. h (inr o)))
]

read-length :
    (n : ℕ) (content : Bytes) (a : Bytes × Bytes) → read n content ≡ some a → length a.0 ≡ n
unfolding read
read-length n content a h = ground (arith, length-take n content)

pub AllFit-append : (ps qs : List IdSecret) → AllFit ps → AllFit qs → AllFit (ps ++ qs)
AllFit-append [] qs hp hq = hq
AllFit-append (p ∷ ps) qs (h, hp) hq = (h, AllFit-append ps qs hp hq)

bind-some :
    {A B : Type 0} (o : Option A) (f : A → Option B) (b : B)
    → bind o f ≡ some b
    → (a : A) × (o ≡ some a) × (f a ≡ some b)
bind-some none f b h = cc
bind-some (some a) f b h = (a, refl, h)

read_pairs-AllFit :
    (n : ℕ) (so_far : List IdSecret) (content : Bytes) (owners : List IdSecret) (body : Bytes)
    → read_pairs n so_far content ≡ some (owners, body)
    → AllFit so_far
    → AllFit owners × (length owners ≡ length so_far + n)
unfolding read_pairs
read_pairs-AllFit zero so_far content owners body h f =
    let e : so_far ≡ owners = cc in rw (← e) (f, omega arith)
read_pairs-AllFit (suc n) so_far content owners body h f =
    let (a, ea, ha) = bind-some (read 20 content) _ _ h in
    let (b, eb, hb) = bind-some (read 256 a.1) _ _ ha in
    let p : IdSecret = record { id = a.0; secret = b.0 } in
    let ih = read_pairs-AllFit n (so_far ++ p ∷ []) b.1 owners body hb (
      AllFit-append so_far (p ∷ []) f
        ((read-length 20 content a ea, read-length 256 a.1 b eb), tt)) in
    (ih.0, omega (arith, ih.1, length-append so_far (p ∷ [])))

-- Whatever a header was read from, its pairs fit, and their number is the byte in front.
pub read_owners-AllFit :
    (count : ℕ) (content : Bytes) (owners : List IdSecret) (body : Bytes)
    → read_owners (count ∷ content) ≡ some (owners, body)
    → AllFit owners × (length owners ≡ count)
unfolding read_owners
read_owners-AllFit count content owners body h =
    let r = read_pairs-AllFit count [] content owners body h tt in (r.0, omega (arith, r.1))

pub read_owners-fit :
    (content : Bytes) (owners : List IdSecret) (body : Bytes)
    → read_owners content ≡ some (owners, body)
    → AllFit owners
unfolding read_owners
read_owners-fit [] owners body h = cc
read_owners-fit (count ∷ content) owners body h = (read_owners-AllFit count content owners body h).0

-- The last pair of an identifier counts.
pub find_secret-append :
    (u : Identifier) (so_far : Option Bytes) (ps : List IdSecret) (p : IdSecret)
    → find_secret u so_far (ps ++ p ∷ [])
      ≡ (if p.id == u then some p.secret else find_secret u so_far ps)
unfolding find_secret
find_secret-append u so_far [] p = refl
find_secret-append u so_far (q ∷ ps) p =
    find_secret-append u (if q.id == u then some q.secret else so_far) ps p
