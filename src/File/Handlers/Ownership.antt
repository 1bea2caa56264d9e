-- ===== src/File/Handlers/Ownership.antt =====
-- Ownership survives: what other requests do cannot take a file from its owner, but for a deletion, a
-- public key that is posted under the file's identifier, and more than 255 owners.
use peerstore.Base.{◌+◌, ◌<◌, ◌≡◌, ◌≢◌, refl, ap, ◌∙◌, none, some, arith, List, ◌++◌, Bytes, length}
use peerstore.Base.{bytes_beq_iff, ◌==◌, bytes_eq, Bool-cases, Option-cases, inl, inr}
use peerstore.Base.Dict.{lookup, erase, lookup-insert_self}
use peerstore.Models.Node.{Identifier}
use peerstore.Protocol.Message.{Request}
use peerstore.File.Storage.{Faults, no_faults, get}
use peerstore.File.Owners.{IdSecret, read_owners, secret_of, as_pairs, AllFit, old_header}
use peerstore.File.Owners.RoundTrip.{read_owners-old_header}
use peerstore.File.Owners.Holds.{Owns, Owns-append, read_owners-fit, AllFit-append, secret_of-Owns}
use peerstore.File.Handlers.{Files, get_file_handler, get_public_key_handler, post_file_handler}
use peerstore.File.Handlers.{post_public_key_handler, delete_file_handler}
use peerstore.File.Handlers.{respond, answer}
use peerstore.File.Handlers.Access.{post_file-old, get_file-served}
use peerstore.File.Handlers.Frame.{other_files_kept}

module _ (u key : Identifier) where
  -- The file has a header that can be read, and it names `u`.
  pub record IsOwner (s : Files) : Type 0 where
    pub content : Bytes
    pub owners : List IdSecret
    pub body : Bytes
    pub stored : lookup key s.disk ≡ some content
    pub parsed : read_owners content ≡ some (owners, body)
    pub named : Owns u owners

  -- The owners so far and the new ones are at most 255.
  abbrev pub HasRoom : Request → Files → Type 0
  HasRoom r s =
      (content : Bytes) (owners : List IdSecret) (body : Bytes)
      → lookup r.header.key s.disk ≡ some content
      → read_owners content ≡ some (owners, body)
      → length owners + length r.header.shared_with < 256

  -- The requests that a server may handle, in any order and from anybody
  pub data Step : Files → Files → Type 0 where
    get_file : (f : Faults) (r : Request) (s : Files) → Step s (get_file_handler f r s).1
    get_public_key :
        (f : Faults) (r : Request) (s : Files) → Step s (get_public_key_handler f r s).1
    post_file :
        (r : Request) (s : Files)
        → AllFit (as_pairs r.header.shared_with)
        → HasRoom r s
        → Step s (post_file_handler no_faults r s).1
    post_public_key :
        (f : Faults) (r : Request) (s : Files)
        → r.header.key ≢ key
        → Step s (post_public_key_handler f r s).1
    delete_file :
        (f : Faults) (r : Request) (s : Files)
        → r.header.key ≢ key
        → Step s (delete_file_handler f r s).1

  pub data Reach (s : Files) : Files → Type 0 where
    here : Reach s s
    next : {t w : Files} → Reach s t → Step t w → Reach s w

  same_file : (s t : Files) → lookup key t.disk ≡ lookup key s.disk → IsOwner s → IsOwner t
  same_file s t e o = record {
    content = o.content;
    owners = o.owners;
    body = o.body;
    stored = e ∙ o.stored;
    parsed = o.parsed;
    named = o.named;
  }

  post_file-refused_disk :
      (r : Request) (s : Files) (content : Bytes) (owners : List IdSecret) (body : Bytes)
      → lookup r.header.key s.disk ≡ some content
      → read_owners content ≡ some (owners, body)
      → secret_of r.header.from owners ≡ none
      → (post_file_handler no_faults r s).1.disk ≡ s.disk
  unfolding post_file_handler get
  post_file-refused_disk r s content owners body e p q = ground arith

  -- A post to the file itself: refused, or by an owner, who keeps all owners.
  post_file_self :
      (r : Request) (s : Files)
      → AllFit (as_pairs r.header.shared_with)
      → HasRoom r s
      → r.header.key ≡ key
      → IsOwner s
      → IsOwner (post_file_handler no_faults r s).1
  post_file_self r s fit room k o =
      let stored' : lookup r.header.key s.disk ≡ some o.content = rw k o.stored in
      elim (Option-cases (secret_of r.header.from o.owners)) [
        | inl q ↦
            same_file s _
              (ap (lookup key)
                (post_file-refused_disk r s o.content o.owners o.body stored' o.parsed q))
              o
        | inr (secret, q) ↦ record {
          content = old_header o.owners r.header.shared_with ++ r.body;
          owners = o.owners ++ as_pairs r.header.shared_with;
          body = r.body;
          stored =
              rw (post_file-old r s o.content o.owners o.body secret stored' o.parsed q, k)
                (lookup-insert_self key _ (erase key s.disk));
          parsed =
              read_owners-old_header o.owners r.header.shared_with r.body
                (AllFit-append o.owners _ (read_owners-fit o.content o.owners o.body o.parsed) fit)
                (room o.content o.owners o.body stored' o.parsed);
          named = Owns-append u o.owners _ o.named;
        }
      ]

  pub Step-IsOwner : {s t : Files} → Step s t → IsOwner s → IsOwner t
  unfolding get_file_handler get_public_key_handler
  Step-IsOwner (get_file f r s) o = o
  Step-IsOwner (get_public_key f r s) o = same_file s _ refl o
  Step-IsOwner (post_file r s fit room) o = elim (Bool-cases (r.header.key == key)) [
    | inl e ↦ post_file_self r s fit room ((bytes_beq_iff r.header.key key).0 e) o
    | inr e ↦
        same_file s _
          (other_files_kept no_faults r key (λ k. cc (e, (bytes_beq_iff r.header.key key).1 k)) s).0
          o
  ]
  Step-IsOwner (post_public_key f r s n) o = same_file s _ (other_files_kept f r key n s).1 o
  Step-IsOwner (delete_file f r s n) o = same_file s _ (other_files_kept f r key n s).2 o

  Reach-IsOwner : {s t : Files} → Reach s t → IsOwner s → IsOwner t
  Reach-IsOwner here o = o
  Reach-IsOwner (next r st) o = Step-IsOwner st (Reach-IsOwner r o)

  -- Whatever requests are handled after `u` owned the file, `u` reads it with success: as long as
  -- none deletes it, none posts a public key under its identifier, and files are posted where the
  -- disk does not fail, with secrets of 256 bytes and to at most 255 owners in all.
  pub owner_still_served :
      {s t : Files} (g : Request)
      → IsOwner s
      → Reach s t
      → g.header.key ≡ key
      → g.header.from ≡ u
      → (secret body : Bytes) × (get_file_handler no_faults g t
          ≡ (respond (answer 0 secret body), t))
  owner_still_served {t = t} g o reach k v =
      let o' = Reach-IsOwner reach o in
      let (secret, q) = secret_of-Owns u o'.owners o'.named in
      let q' : secret_of g.header.from o'.owners ≡ some secret = rw v q in
      (
        secret,
        o'.body,
        get_file-served no_faults g t o'.content o'.owners o'.body refl (rw k o'.stored) o'.parsed
            ∙ rw q',
      )
