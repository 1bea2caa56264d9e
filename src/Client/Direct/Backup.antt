-- ===== src/Client/Direct/Backup.antt =====
-- The first `backup` of a file against the one node.
use peerstore.Base.{
  ◌≡◌, refl, ap, String, string_eq, bytes_eq, none, some, [], ◌++◌, Bytes, length, true, arith,
}
use peerstore.Base.{nat_eq}
use peerstore.Base.Dict.{lookup, insert, erase, lookup-insert_self}
use peerstore.Base.Result.{ok}
use peerstore.Models.Node.{Identifier, PrivateKey, Node}
use peerstore.Models.Clock.{increment_clock}
use peerstore.Crypto.Aes.{IsCbc, valid_key}
use peerstore.Crypto.Rsa.{generate_session_key}
use peerstore.Protocol.Envelope.{Suite, Entropy}
use peerstore.File.Owners.{secret_of, new_header, AllFit, owners_of_new, as_pairs}
use peerstore.File.Handlers.{Files, answer}
use peerstore.File.Handlers.Access.{post_file-new}
use peerstore.Client.Requests.{Net, Codecs, file_to_key_identifier, user_id}
use peerstore.Client.Payload.{Sealed}
use peerstore.Client.Payload.Laws.{seal-new}
use peerstore.Client.Operations.{backup_file, backup_request, getfile}
use peerstore.Client.Direct.{Site, direct, own_machine}
use peerstore.Base.{bytes_beq_iff}
use peerstore.Crypto.Rsa.{IsRsa}
use peerstore.Crypto.Rsa.Laws.{decrypt_rsa-generate_session_key}
use peerstore.File.Owners.{find_secret}
use peerstore.File.Owners.RoundTrip.{read_owners-new_header}
use peerstore.Client.Direct.Steps.{
  create_transport-direct, get_node-direct, get_key-missing, post_file-answer, Keeps, getfile-Keeps,
}

secret_of-creator :
    (u : Identifier) (secret : Bytes) → secret_of u (owners_of_new u secret []) ≡ some secret
unfolding find_secret as_pairs
secret_of-creator u secret = rw ((bytes_beq_iff u u).1 refl)

owners_of_new-AllFit :
    (u : Identifier) (secret : Bytes)
    → length u ≡ 20
    → length secret ≡ 256
    → AllFit (owners_of_new u secret [])
unfolding as_pairs
owners_of_new-AllFit u secret h k = ((h, k), tt)

module _ (c : Suite) (encode_node : Node → Bytes) (node : Node) (g : Codecs) (self : PrivateKey)
    (peer : Node) (node_back : g.decode_node (encode_node node) ≡ (node, true)) where
  abbrev net : Net Site
  net = direct encode_node node

  abbrev me : Identifier
  me = user_id g self.public

  -- A file that the server does not have yet: with a session key that AES takes and an encryption of it of
  -- 256 bytes, the backup succeeds, and the site keeps the file for its owner.
  pub backup_file-new :
      (e : Entropy) (path : String) (s : Site) (plaintext session secret iv : Bytes)
      → IsCbc c.cbc
      → IsRsa c.rsa
      → lookup (file_to_key_identifier g path) s.files.disk ≡ none
      → lookup path s.own_files ≡ some plaintext
      → generate_session_key c.rsa e.session e.padding (some self.public) ≡ ok (session, secret)
      → valid_key session ≡ true
      → length secret ≡ 256
      → length me ≡ 20
      → e.iv ≡ some iv
      → length iv ≡ 16
      → (s' : Site) × (backup_file c net own_machine g self peer e path s ≡ (ok tt, s'))
        × (s'.own_files ≡ s.own_files)
        × (k : Keeps c g self path session iv plaintext s') × (length k.owners ≡ 1)
  unfolding backup_file as_pairs
  backup_file-new e path s plaintext session secret iv is_cbc is_rsa absent here keys valid size
        id_size ivs block =
      let (text, sealed, back) =
        seal-new c self e plaintext session secret iv is_cbc keys valid ivs block in
      let (x, asked) =
        get_key-missing encode_node node g (file_to_key_identifier g path) me peer self s absent in
      let f : Sealed = record { body = iv ++ text; secret = secret } in
      let r = backup_request c net own_machine g self peer path f in
      let key = file_to_key_identifier g path in
      let content = new_header me secret [] ++ f.body in
      let clock = increment_clock s.files.clock 0 in
      let after : Files = record {
        disk = insert key content (erase key s.files.disk);
        clock = clock;
      } in
      let answered =
        post_file-answer encode_node node g r.header f.body me node self s (answer clock [] [])
          after (post_file-new r s.files absent) in
      (
        record s { files = after },
        rw (
          create_transport-direct encode_node node g me peer self s,
          get_node-direct encode_node node g (file_to_key_identifier g path) me peer self s
              node_back,
          create_transport-direct encode_node node g me node self s,
          here,
          asked,
          sealed,
          answered,
        ),
        refl,
        record {
          content = content;
          owners = owners_of_new me secret [];
          body = f.body;
          secret = secret;
          stored = lookup-insert_self key content (erase key s.files.disk);
          parsed =
              read_owners-new_header me secret [] f.body
                (owners_of_new-AllFit me secret id_size size) (omega arith);
          owned = secret_of-creator me secret;
          holds = record {
            ciphertext = text;
            opens =
                (decrypt_rsa-generate_session_key c.rsa is_rsa self e.session e.padding session
                  secret keys).1;
            block = block;
            layout = refl;
            decrypts = back;
          };
        },
        refl,
      )

  -- So a file that was backed up for the first time is what `getfile` writes to its destination, and nothing
  -- else of the client's files has changed.
  pub getfile-backup_file :
      (e : Entropy) (path dest : String) (s : Site) (plaintext session secret iv : Bytes)
      → IsCbc c.cbc
      → IsRsa c.rsa
      → lookup (file_to_key_identifier g path) s.files.disk ≡ none
      → lookup path s.own_files ≡ some plaintext
      → generate_session_key c.rsa e.session e.padding (some self.public) ≡ ok (session, secret)
      → valid_key session ≡ true
      → length secret ≡ 256
      → length me ≡ 20
      → e.iv ≡ some iv
      → length iv ≡ 16
      → (s' : Site) × (t : Site) × (backup_file c net own_machine g self peer e path s
          ≡ (ok tt, s'))
        × (getfile c net own_machine g self peer path dest s' ≡ (ok tt, t))
        × (t.own_files ≡ insert dest plaintext s.own_files)
  getfile-backup_file e path dest s plaintext session secret iv is_cbc is_rsa absent here keys valid
        size id_size ivs block =
      let (s', done, same, keeps, alone) =
        backup_file-new e path s plaintext session secret iv is_cbc is_rsa absent here keys valid
          size id_size ivs block in
      (
        s',
        record s' { own_files = insert dest plaintext s'.own_files },
        done,
        getfile-Keeps c encode_node node g self peer node_back path dest session iv plaintext s'
            keeps,
        ap (insert dest plaintext) same,
      )
