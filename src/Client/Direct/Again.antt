-- ===== src/Client/Direct/Again.antt =====
-- A second `backup` of a file against the one node.
use peerstore.Base.{
  ◌<◌, ◌≡◌, refl, String, string_eq, bytes_eq, some, [], ◌++◌, Bytes, length, true, arith,
}
use peerstore.Base.{nat_eq}
use peerstore.Base.Dict.{lookup, insert}
use peerstore.Base.Result.{ok}
use peerstore.Models.Node.{Identifier, PrivateKey, Node}
use peerstore.Crypto.Aes.{IsCbc, valid_key}
use peerstore.Protocol.Envelope.{Suite, Entropy}
use peerstore.File.Owners.{as_pairs}
use peerstore.File.Handlers.{answer}
use peerstore.Client.Requests.{Net, Codecs, file_to_key_identifier, user_id}
use peerstore.Client.Payload.{Sealed}
use peerstore.Client.Payload.Laws.{seal-again}
use peerstore.Client.Operations.{backup_file, backup_request, getfile}
use peerstore.Client.Direct.{Site, direct, own_machine}
use peerstore.Client.Direct.Steps.{
  create_transport-direct, get_node-direct, get_key-stored, post_file-answer, Keeps, getfile-Keeps,
}
use peerstore.Base.{append-nil}
use peerstore.Client.Direct.Stored.{
  post-Stored, same_header, Keeps-after, as_pairs-nil, nobody-AllFit,
}

module _ (c : Suite) (encode_node : Node → Bytes) (node : Node) (g : Codecs) (self : PrivateKey)
    (peer : Node) (node_back : g.decode_node (encode_node node) ≡ (node, true)) where
  abbrev net : Net Site
  net = direct encode_node node

  abbrev me : Identifier
  me = user_id g self.public

  -- A second backup of a file with fewer than 256 owners succeeds, and everybody who could get the file can
  -- get the new one, with the key that they have.
  pub backup_file-again :
      (e : Entropy) (path : String) (s : Site) (old plaintext session iv : Bytes)
      (k : Keeps c g self path session iv old s)
      → IsCbc c.cbc
      → valid_key session ≡ true
      → length k.owners < 256
      → lookup path s.own_files ≡ some plaintext
      → (s' : Site) × (backup_file c net own_machine g self peer e path s ≡ (ok tt, s'))
        × (s'.own_files ≡ s.own_files)
        × ((u : PrivateKey)
            → Keeps c g u path session iv old s
            → Keeps c g u path session iv plaintext s')
  unfolding backup_file
  backup_file-again e path s old plaintext session iv k is_cbc valid room here =
      let key = file_to_key_identifier g path in
      let resp = answer 0 k.secret k.body in
      let (text, sealed, back) =
        seal-again c self e resp plaintext old session iv is_cbc valid k.holds in
      let f : Sealed = record { body = iv ++ text; secret = k.secret } in
      let r = backup_request c net own_machine g self peer path f in
      let (files, reply, posted, st) =
        post-Stored r s k.owners k.body k.secret
          (record { content = k.content; stored = k.stored; parsed = k.parsed }) k.owned
          nobody-AllFit (omega arith) in
      let answered =
        post_file-answer encode_node node g r.header f.body me node self s reply files posted in
      (
        record s { files = files },
        rw (
          create_transport-direct encode_node node g me peer self s,
          get_node-direct encode_node node g key me peer self s node_back,
          create_transport-direct encode_node node g me node self s,
          here,
          get_key-stored encode_node node g key me peer self s k.content k.owners k.body k.secret
              k.stored k.parsed k.owned,
          sealed,
          answered,
        ),
        refl,
        λ u h.
            let (owners_same, body_same) = same_header c g path session iv old s u self h k in
            Keeps-after c g path session iv u plaintext f.body h.secret (k.owners ++ as_pairs []) _
              st (rw (as_pairs-nil, append-nil k.owners, ← owners_same) h.owned)
              (record {
                ciphertext = text;
                opens = h.holds.opens;
                block = h.holds.block;
                layout = refl;
                decrypts = back;
              }),
      )

-- After a second backup by somebody who can get the file, of fewer than 256 owners, everybody who could get
-- the old file is written the new one.
pub getfile-backup_file_again :
    (c : Suite) (encode_node : Node → Bytes) (node : Node) (g : Codecs) (self reader : PrivateKey)
    (peer : Node) (e : Entropy) (path dest : String) (s : Site) (old plaintext session iv : Bytes)
    (k : Keeps c g self path session iv old s)
    → g.decode_node (encode_node node) ≡ (node, true)
    → IsCbc c.cbc
    → valid_key session ≡ true
    → length k.owners < 256
    → lookup path s.own_files ≡ some plaintext
    → Keeps c g reader path session iv old s
    → let net = direct encode_node node in
      (s' : Site) × (backup_file c net own_machine g self peer e path s ≡ (ok tt, s'))
      × (getfile c net own_machine g reader peer path dest s'
          ≡ (ok tt, record s' { own_files = insert dest plaintext s'.own_files }))
getfile-backup_file_again c encode_node node g self reader peer e path dest s old plaintext session
      iv k back is_cbc valid room here h =
    let (s', done, same, for_all) =
      backup_file-again c encode_node node g self peer back e path s old plaintext session iv k
        is_cbc valid room here in
    (
      s',
      done,
      getfile-Keeps c encode_node node g reader peer back path dest session iv plaintext s'
          (for_all reader h),
    )
