-- ===== src/Client/Direct/Share.antt =====
-- `share` against the one node.
use peerstore.Base.{
  beq_ne, ◌<◌, ◌≡◌, refl, sym, ◌∙◌, String, string_eq, bytes_eq, none, some, List, [], ◌∷◌, ◌++◌,
  Bytes, length, true, arith,
}
use peerstore.Base.{◌==◌, nat_eq, if◌then◌else◌}
use peerstore.Base.Dict.{lookup, insert}
use peerstore.Base.Result.{ok}
use peerstore.Models.Node.{Identifier, PublicKey, PrivateKey, Node}
use peerstore.Crypto.Aes.{IsCbc, valid_key}
use peerstore.Crypto.Rsa.{generate_session_key}
use peerstore.Protocol.Message.{SharedSecret}
use peerstore.Protocol.Envelope.{Suite, Entropy}
use peerstore.File.Owners.{IdSecret, secret_of, AllFit, as_pairs}
use peerstore.File.Handlers.{answer}
use peerstore.Client.Requests.{Net, Codecs, file_to_key_identifier, user_id}
use peerstore.Client.Operations.{backup_file, getfile, share, share_request}
use peerstore.Client.Direct.{Site, direct, own_machine}
use peerstore.Base.{bytes_beq_iff}
use peerstore.Crypto.Rsa.{IsRsa}
use peerstore.Client.Direct.Steps.{
  create_transport-direct, get_node-direct, get_key-stored, post_file-answer, Keeps, getfile-Keeps,
}
use peerstore.Base.{◌≢◌}
use peerstore.Crypto.Rsa.{encrypt_rsa}
use peerstore.Crypto.Rsa.Laws.{decrypt_rsa-encrypt_rsa}
use peerstore.File.Owners.Holds.{find_secret-append}
use peerstore.Client.Direct.Stored.{post-Stored, same_header, Keeps-after}
use peerstore.Client.Direct.Backup.{backup_file-new}

module _ (c : Suite) (encode_node : Node → Bytes) (node : Node) (g : Codecs) (self : PrivateKey)
    (peer : Node) (node_back : g.decode_node (encode_node node) ≡ (node, true)) where
  abbrev net : Net Site
  net = direct encode_node node

  abbrev me : Identifier
  me = user_id g self.public

  abbrev one_more : PublicKey → Bytes → List SharedSecret
  one_more other enc = record { id = user_id g other; secret = enc } ∷ []

  one_more-AllFit :
      (other : PublicKey) (enc : Bytes)
      → length (user_id g other) ≡ 20
      → length enc ≡ 256
      → AllFit (as_pairs (one_more other enc))
  unfolding as_pairs
  one_more-AllFit other enc h k = ((h, k), tt)

  secret_of-one_more :
      (u : Identifier) (owners : List IdSecret) (other : PublicKey) (enc : Bytes)
      → secret_of u (owners ++ as_pairs (one_more other enc))
        ≡ (if user_id g other == u then some enc else secret_of u owners)
  unfolding as_pairs
  secret_of-one_more u owners other enc =
      find_secret-append u none owners (record { id = user_id g other; secret = enc })

  -- An owner shares a file that has fewer than 255 owners with another user: that succeeds, and the site
  -- keeps the file for the other user, and for everybody else it kept it for.
  pub share-Keeps :
      (path : String) (s : Site) (plaintext session iv padding enc : Bytes) (other : PrivateKey)
      (k : Keeps c g self path session iv plaintext s)
      → IsRsa c.rsa
      → encrypt_rsa c.rsa padding (some other.public) session ≡ ok enc
      → length enc ≡ 256
      → length (user_id g other.public) ≡ 20
      → length k.owners < 255
      → (s' : Site) × (share c net own_machine g self peer padding path other.public s
          ≡ (ok tt, s'))
        × (s'.own_files ≡ s.own_files)
        × Keeps c g other path session iv plaintext s'
        × ((u : PrivateKey)
            → user_id g other.public ≢ user_id g u.public
            → Keeps c g u path session iv plaintext s
            → Keeps c g u path session iv plaintext s')
  unfolding share
  share-Keeps path s plaintext session iv padding enc other k is_rsa encrypted size id_size room =
      let key = file_to_key_identifier g path in
      let resp = answer 0 k.secret k.body in
      let r =
        share_request c net own_machine g self peer path
          (record { id = user_id g other.public; secret = enc }) resp in
      let (files, reply, posted, st) =
        post-Stored r s k.owners k.body k.secret
          (record { content = k.content; stored = k.stored; parsed = k.parsed }) k.owned
          (one_more-AllFit other.public enc id_size size) (omega arith) in
      let answered =
        post_file-answer encode_node node g r.header k.body me node self s reply files posted in
      let owners = k.owners ++ as_pairs (one_more other.public enc) in
      (
        record s { files = files },
        rw (
          create_transport-direct encode_node node g me peer self s,
          get_node-direct encode_node node g key me peer self s node_back,
          create_transport-direct encode_node node g me node self s,
          get_key-stored encode_node node g key me node self s k.content k.owners k.body k.secret
              k.stored k.parsed k.owned,
          k.holds.opens,
          encrypted,
          answered,
        ),
        refl,
        Keeps-after c g path session iv other plaintext k.body enc owners _ st
            (secret_of-one_more (user_id g other.public) k.owners other.public enc
              ∙ rw ((bytes_beq_iff (user_id g other.public) (user_id g other.public)).1 refl))
            (record {
              ciphertext = k.holds.ciphertext;
              opens = decrypt_rsa-encrypt_rsa c.rsa is_rsa other padding session enc encrypted;
              block = k.holds.block;
              layout = k.holds.layout;
              decrypts = k.holds.decrypts;
            }),
        λ u ne h.
            let (owners_same, body_same) = same_header c g path session iv plaintext s u self h k in
            let apart = beq_ne (user_id g other.public) (user_id g u.public) ne in
            Keeps-after c g path session iv u plaintext k.body h.secret owners _ st
              (secret_of-one_more (user_id g u.public) k.owners other.public enc
                ∙ rw (apart, ← owners_same) h.owned)
              (record {
                ciphertext = h.holds.ciphertext;
                opens = h.holds.opens;
                block = h.holds.block;
                layout = sym body_same ∙ h.holds.layout;
                decrypts = h.holds.decrypts;
              }),
      )

-- Against one node that names itself and has no file of this path yet, where the libraries keep
-- their promises: a file is backed up and then shared with another user, whose identifier is a
-- different one. What `getfile` then writes for that user and for the owner is the file that was
-- backed up. The session key has a length that AES takes, its two encryptions take 256 bytes, the
-- identifiers 20, and the IV is one block.
pub getfile-share :
    (c : Suite) (encode_node : Node → Bytes) (node : Node) (g : Codecs) (self other : PrivateKey)
    (peer : Node) (e : Entropy) (path dest : String) (s : Site)
    (plaintext session secret iv padding enc : Bytes)
    → g.decode_node (encode_node node) ≡ (node, true)
    → IsCbc c.cbc
    → IsRsa c.rsa
    → lookup (file_to_key_identifier g path) s.files.disk ≡ none
    → lookup path s.own_files ≡ some plaintext
    → generate_session_key c.rsa e.session e.padding (some self.public) ≡ ok (session, secret)
    → valid_key session ≡ true
    → length secret ≡ 256
    → length (user_id g self.public) ≡ 20
    → e.iv ≡ some iv
    → length iv ≡ 16
    → encrypt_rsa c.rsa padding (some other.public) session ≡ ok enc
    → length enc ≡ 256
    → length (user_id g other.public) ≡ 20
    → user_id g other.public ≢ user_id g self.public
    → let net = direct encode_node node in
      (s' t : Site) × (backup_file c net own_machine g self peer e path s ≡ (ok tt, s'))
      × (share c net own_machine g self peer padding path other.public s' ≡ (ok tt, t))
      × (getfile c net own_machine g other peer path dest t
          ≡ (ok tt, record t { own_files = insert dest plaintext t.own_files }))
      × (getfile c net own_machine g self peer path dest t
          ≡ (ok tt, record t { own_files = insert dest plaintext t.own_files }))
getfile-share c encode_node node g self other peer e path dest s plaintext session secret iv padding
      enc back is_cbc is_rsa absent here keys valid size id_size ivs block encrypted enc_size
      other_size apart =
    let (s', done, same, k, alone) =
      backup_file-new c encode_node node g self peer back e path s plaintext session secret iv
        is_cbc is_rsa absent here keys valid size id_size ivs block in
    let (t, shared, kept, for_other, for_all) =
      share-Keeps c encode_node node g self peer back path s' plaintext session iv padding enc other
        k is_rsa encrypted enc_size other_size (omega arith) in
    (
      s',
      t,
      done,
      shared,
      getfile-Keeps c encode_node node g other peer back path dest session iv plaintext t for_other,
      getfile-Keeps c encode_node node g self peer back path dest session iv plaintext t
          (for_all self apart k),
    )
