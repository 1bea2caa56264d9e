-- ===== src/Crypto/Pem/Laws.antt =====
-- The readers end on every text, and read back the keys that the writers wrote.
use peerstore.Base.{ℕ, zero, suc, ◌<◌, ◌≡◌, refl, Option, none, some, arith, [], ◌∷◌, ◌++◌}
use peerstore.Base.{
  Bytes, length, length-append, append-nil, Bool-cases, ==-self, inl, inr, true, false,
}
use peerstore.Base.{◌==◌, string_eq, String, ◌∙◌}
use peerstore.Base.Result.{Result, ok}
use peerstore.Models.Node.{PublicKey, PrivateKey}
use peerstore.Crypto.Pem.{
  Block, Codec, IsCodec, IsKind, write_private_key, write_public_key, write_block,
}
use peerstore.Crypto.Pem.{
  read_blocks, decoded, read_public_key, read_keypair, parsed_public, parsed_private,
}

module _ (c : Codec) (laws : IsCodec c) {A : Type 0} (kind : String)
    (parse : Bytes → Result A) where
  read_blocks-decode :
      (fuel : ℕ) (text : Bytes)
      → 0 < length text
      → read_blocks c kind parse (suc fuel) text
        ≡ decoded c kind parse (read_blocks c kind parse fuel) (c.decode text)
  unfolding read_blocks
  read_blocks-decode fuel [] h = absurd (omega arith)
  read_blocks-decode fuel (x ∷ text) h = refl

  decoded-ends :
      (more : Bytes → Option (Result A)) (text : Bytes) (o : Option (Block × Bytes))
      → c.decode text ≡ o
      → ((rest : Bytes) → length rest < length text → (r : Result A) × (more rest ≡ some r))
      → (r : Result A) × (decoded c kind parse more o ≡ some r)
  decoded-ends more text none e ih = (_, refl)
  decoded-ends more text (some (b, rest)) e ih = elim (Bool-cases (b.kind == kind)) [
    | inl k ↦ (parse b.bytes, rw k)
    | inr k ↦ rw k (ih rest (laws.decode_shrinks text b rest e))
  ]

  read_blocks-ends :
      (fuel : ℕ) (text : Bytes)
      → length text < fuel
      → (r : Result A) × (read_blocks c kind parse fuel text ≡ some r)
  read_blocks-ends zero text h = elim h [ ]
  read_blocks-ends (suc fuel) [] h = unfold read_blocks in (_, refl)
  read_blocks-ends (suc fuel) (x ∷ text) h = rw (read_blocks-decode fuel (x ∷ text) (omega arith)) (
      decoded-ends (read_blocks c kind parse fuel) (x ∷ text) (c.decode (x ∷ text)) refl
        (λ rest shorter. read_blocks-ends fuel rest (omega arith)))

  -- A block of the kind in front is parsed, and one of another kind is passed over.
  front_block :
      (fuel : ℕ) (b : Block) (rest : Bytes)
      → IsKind b.kind
      → read_blocks c kind parse (suc fuel) (c.encode b ++ rest)
        ≡ decoded c kind parse (read_blocks c kind parse fuel) (some (b, rest))
  front_block fuel b rest w =
      read_blocks-decode fuel (c.encode b ++ rest)
        (omega (arith, laws.encode_nonempty b, length-append (c.encode b) rest))
      ∙ rw (laws.decode-encode b rest w)

  read_blocks-found :
      (fuel : ℕ) (b : Block) (rest : Bytes)
      → IsKind b.kind
      → b.kind ≡ kind
      → read_blocks c kind parse (suc fuel) (c.encode b ++ rest) ≡ some (parse b.bytes)
  read_blocks-found fuel b rest w k =
      front_block fuel b rest w
      ∙ (let same : (b.kind == kind) ≡ true = rw k (==-self kind) in rw same)

  read_blocks-other :
      (fuel : ℕ) (b : Block) (rest : Bytes)
      → IsKind b.kind
      → (b.kind == kind) ≡ false
      → read_blocks c kind parse (suc fuel) (c.encode b ++ rest)
        ≡ read_blocks c kind parse fuel rest
  read_blocks-other fuel b rest w k = front_block fuel b rest w ∙ rw k

module _ (c : Codec) (laws : IsCodec c) where
  -- Where the libraries keep their promises, both readers return on every text.
  pub readers_end :
      (text : Bytes)
      → ((r : Result PublicKey) × (read_public_key c text ≡ some r))
        × ((r : Result PrivateKey) × (read_keypair c text ≡ some r))
  unfolding read_public_key read_keypair
  readers_end text = (
    read_blocks-ends c laws "PUBLIC KEY" _ (suc (length text)) text (omega arith),
    read_blocks-ends c laws "PRIVATE KEY" _ (suc (length text)) text (omega arith),
  )

  public_found :
      (fuel : ℕ) (k : PublicKey) (bytes rest : Bytes)
      → c.marshal_public k ≡ some bytes
      → read_blocks c "PUBLIC KEY"
          (λ b. parsed_public c (c.parse_public b))
          (suc fuel)
          (write_block c bytes ++ rest)
        ≡ some (ok k)
  public_found fuel k bytes rest m =
      read_blocks-found c laws "PUBLIC KEY" _ fuel (record { kind = "PUBLIC KEY"; bytes = bytes })
        rest (inl refl) refl
      ∙ rw (laws.parse-marshal_public k bytes m)

  public_found_last :
      (fuel : ℕ) (k : PublicKey) (bytes : Bytes)
      → c.marshal_public k ≡ some bytes
      → read_blocks c "PUBLIC KEY"
          (λ b. parsed_public c (c.parse_public b))
          (suc fuel)
          (write_block c bytes)
        ≡ some (ok k)
  public_found_last fuel k bytes m =
      let e = append-nil (write_block c bytes) in rw e at (public_found fuel k bytes [] m)

  public_found_behind :
      (fuel : ℕ) (k : PublicKey) (bytes : Bytes) (b : Block)
      → c.marshal_public k ≡ some bytes
      → IsKind b.kind
      → (b.kind == "PUBLIC KEY") ≡ false
      → 0 < fuel
      → read_blocks c "PUBLIC KEY"
          (λ b'. parsed_public c (c.parse_public b'))
          (suc fuel)
          (c.encode b ++ write_block c bytes)
        ≡ some (ok k)
  public_found_behind zero k bytes b m w other h = elim h [ ]
  public_found_behind (suc fuel) k bytes b m w other h =
      read_blocks-other c laws "PUBLIC KEY" _ (suc fuel) b (write_block c bytes) w other
      ∙ public_found_last fuel k bytes m

  -- Where the libraries keep their promises and encode the public key: the client writes its
  -- private and then its public key to one file, and both readers find their key there; the
  -- server's file with the public key alone is read back too.
  pub read-write_keys :
      (k : PrivateKey) (bytes : Bytes)
      → c.marshal_public k.public ≡ some bytes
      → (text : Bytes) × (write_public_key c k.public ≡ ok text)
        × (read_public_key c text ≡ some (ok k.public))
        × (read_public_key c (write_private_key c k ++ text) ≡ some (ok k.public))
        × (read_keypair c (write_private_key c k ++ text) ≡ some (ok k))
  unfolding write_public_key write_private_key read_public_key read_keypair
  read-write_keys k bytes m =
      let text = write_block c bytes in
      let private_block : Block = record { kind = "PRIVATE KEY"; bytes = c.marshal_private k } in
      (
        text,
        rw m,
        public_found_last (length text) k.public bytes m,
        public_found_behind (length (c.encode private_block ++ text)) k.public bytes private_block m
            (inr refl) refl
            (omega (
              arith,
              laws.encode_nonempty private_block,
              length-append (c.encode private_block) text,
            )),
        read_blocks-found c laws "PRIVATE KEY" _ (length (write_private_key c k ++ text))
              private_block text (inr refl) refl
            ∙ rw (laws.parse-marshal_private k),
      )

  -- A file with the private key alone, as the server writes it
  pub read_keypair-write_private_key :
      (k : PrivateKey) → read_keypair c (write_private_key c k) ≡ some (ok k)
  unfolding write_private_key read_keypair
  read_keypair-write_private_key k =
      let private_block : Block = record { kind = "PRIVATE KEY"; bytes = c.marshal_private k } in
      let found =
        read_blocks-found c laws "PRIVATE KEY" (λ b. parsed_private c (c.parse_private b))
          (length (c.encode private_block)) private_block [] (inr refl) refl in
      rw (append-nil (c.encode private_block)) at found ∙ rw (laws.parse-marshal_private k)
