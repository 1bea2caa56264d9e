-- ===== src/Client/Direct/Stored.antt =====
-- A stored file with its owners on the one node, and who can get it.
use peerstore.Base.{
  ◌<◌, ◌≡◌, refl, sym, ap, ◌∙◌, String, string_eq, bytes_eq, some, List, [], ◌++◌, Bytes, length,
}
use peerstore.Base.{nat_eq}
use peerstore.Base.Dict.{lookup, insert, erase, lookup-insert_self}
use peerstore.Models.Node.{Identifier, PrivateKey}
use peerstore.Models.Clock.{increment_clock}
use peerstore.Protocol.Message.{Request, Response}
use peerstore.Protocol.Envelope.{Suite}
use peerstore.File.Storage.{no_faults}
use peerstore.File.Owners.{IdSecret, read_owners, secret_of, old_header, AllFit, as_pairs}
use peerstore.File.Handlers.{Files, respond, answer, post_file_handler}
use peerstore.File.Handlers.Access.{post_file-old}
use peerstore.Client.Requests.{Codecs, file_to_key_identifier, user_id}
use peerstore.Client.Payload.Laws.{Holds}
use peerstore.Client.Direct.{Site}
use peerstore.File.Owners.RoundTrip.{read_owners-old_header}
use peerstore.Client.Direct.Steps.{Keeps}
use peerstore.Base.{◌+◌}
use peerstore.File.Owners.Holds.{read_owners-fit, AllFit-append}

-- A file whose header names `owners`, as the site has it
pub record Stored (key : Identifier) (owners : List IdSecret) (body : Bytes) (s : Site)
    : Type 0 where
  pub content : Bytes
  pub stored : lookup key s.files.disk ≡ some content
  pub parsed : read_owners content ≡ some (owners, body)

-- A post by an owner that names `more` new users, and what is stored then
pub post-Stored :
    (r : Request) (s : Site) (owners : List IdSecret) (old secret : Bytes)
    → Stored r.header.key owners old s
    → secret_of r.header.from owners ≡ some secret
    → AllFit (as_pairs r.header.shared_with)
    → length owners + length r.header.shared_with < 256
    → (files : Files) × (resp : Response) × (post_file_handler no_faults r s.files
        ≡ (respond resp, files))
      × Stored r.header.key
          (owners ++ as_pairs r.header.shared_with)
          r.body
          (record s { files = files })
post-Stored r s owners old secret h q fit room =
    let key = r.header.key in
    let content = old_header owners r.header.shared_with ++ r.body in
    let clock = increment_clock s.files.clock r.header.clock in
    let files : Files = record {
      disk = insert key content (erase key s.files.disk);
      clock = clock;
    } in
    (
      files,
      answer clock secret [],
      post_file-old r s.files h.content owners old secret h.stored h.parsed q,
      record {
        content = content;
        stored = lookup-insert_self key content (erase key s.files.disk);
        parsed =
            read_owners-old_header owners r.header.shared_with r.body
              (AllFit-append owners _ (read_owners-fit h.content owners old h.parsed) fit) room;
      },
    )

module _ (c : Suite) (g : Codecs) (path : String) (session iv plaintext : Bytes) (s : Site) where
  abbrev key : Identifier
  key = file_to_key_identifier g path

  -- Whoever the site keeps a file for, the header and the data are the same.
  pub same_header :
      (u v : PrivateKey) (h : Keeps c g u path session iv plaintext s)
      (k : Keeps c g v path session iv plaintext s)
      → (h.owners ≡ k.owners) × (h.body ≡ k.body)
  same_header u v h k =
      let contents : some h.content ≡ some k.content = sym h.stored ∙ k.stored in
      let content : h.content ≡ k.content = cc in
      let parts : some (h.owners, h.body) ≡ some (k.owners, k.body) =
        sym h.parsed ∙ ap read_owners content ∙ k.parsed in
      let pair : (h.owners, h.body) ≡ (k.owners, k.body) = cc in
      (ap (λ (x : List IdSecret × Bytes). x.0) pair, ap (λ (x : List IdSecret × Bytes). x.1) pair)

-- The file of a holder, once it is stored with these owners and data
pub Keeps-after :
    (c : Suite) (g : Codecs) (path : String) (session iv : Bytes) (u : PrivateKey)
    (newer body secret : Bytes) (owners : List IdSecret) (t : Site)
    → Stored (file_to_key_identifier g path) owners body t
    → secret_of (user_id g u.public) owners ≡ some secret
    → Holds c u session iv newer (answer 0 secret body)
    → Keeps c g u path session iv newer t
Keeps-after c g path session iv u newer body secret owners t st own h = record {
  content = st.content;
  owners = owners;
  body = body;
  secret = secret;
  stored = st.stored;
  parsed = st.parsed;
  owned = own;
  holds = h;
}

-- No new user
pub as_pairs-nil : as_pairs [] ≡ []
unfolding as_pairs
as_pairs-nil = refl

pub nobody-AllFit : AllFit (as_pairs [])
unfolding as_pairs
nobody-AllFit = tt
