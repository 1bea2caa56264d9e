-- ===== src/File/Handlers/Access.antt =====
-- What the handlers answer, on a disk where nothing fails.
use peerstore.Base.{
  ◌+◌, ◌<◌, ◌≡◌, refl, ap, false, Option, none, some, arith, List, [], ◌++◌, Bytes, length,
}
use peerstore.Base.{bytes_eq}
use peerstore.Base.Dict.{lookup, insert, erase, lookup-insert_self, lookup-erase_self}
use peerstore.Models.Clock.{increment_clock}
use peerstore.Protocol.Message.{Request}
use peerstore.File.Storage.{Faults, no_faults, get, delete}
use peerstore.File.Storage.Laws.{post-no_faults}
use peerstore.File.Owners.{IdSecret, read_owners, secret_of, owners_of_new, as_pairs, AllFit}
use peerstore.File.Owners.{new_header, old_header}
use peerstore.File.Owners.RoundTrip.{read_owners-new_header, read_owners-old_header}
use peerstore.File.Owners.Holds.{Owns, secret_of-none}
use peerstore.File.Handlers.{Files, Outcome, respond, refused, panic, answer, get_file_handler}
use peerstore.File.Handlers.{post_file_handler, delete_file_handler}
use peerstore.File.Handlers.Reading.{read_rest-some}

-- The answer to a reader whose secret in the header is `o`
abbrev pub served : Bytes → Option Bytes → Outcome
served body none = refused
served body (some secret) = respond (answer 0 secret body)

module _ (f : Faults) (r : Request) (s : Files) where
  -- A file whose header can be read is served to the caller whom the header names.
  pub get_file-served :
      (content : Bytes) (owners : List IdSecret) (body : Bytes)
      → f.open_found ≡ false
      → lookup r.header.key s.disk ≡ some content
      → read_owners content ≡ some (owners, body)
      → get_file_handler f r s ≡ (served body (secret_of r.header.from owners), s)
  unfolding get_file_handler get
  get_file-served content owners body h e p = ground (arith, read_rest-some body)

-- Where the file opens and its header can be read, a caller whom the header does not name gets the
-- error, and the disk stays as it was, whatever of the three requests it makes and whatever the
-- system refuses after that.
pub stranger_refused :
    (f : Faults) (r : Request) (s : Files) (content : Bytes) (owners : List IdSecret) (body : Bytes)
    → f.open_found ≡ false
    → lookup r.header.key s.disk ≡ some content
    → read_owners content ≡ some (owners, body)
    → ¬ (Owns r.header.from owners)
    → (get_file_handler f r s ≡ (refused, s))
      × ((post_file_handler f r s).0 ≡ refused)
      × ((post_file_handler f r s).1.disk ≡ s.disk)
      × ((delete_file_handler f r s).0 ≡ refused)
      × ((delete_file_handler f r s).1.disk ≡ s.disk)
unfolding get_file_handler post_file_handler delete_file_handler get
stranger_refused f r s content owners body h e p n =
    ground (arith, secret_of-none r.header.from owners n)

-- What a post writes
pub post_file-new :
    (r : Request) (s : Files)
    → lookup r.header.key s.disk ≡ none
    → post_file_handler no_faults r s ≡ (
      respond (answer (increment_clock s.clock r.header.clock) [] []),
      record {
        disk =
            insert r.header.key
              (new_header r.header.from r.header.secret r.header.shared_with ++ r.body)
              (erase r.header.key s.disk);
        clock = increment_clock s.clock r.header.clock;
      },
    )
unfolding post_file_handler get
post_file-new r s e = rw (
  e,
  post-no_faults s.disk r.header.key
      (new_header r.header.from r.header.secret r.header.shared_with ++ r.body),
)

pub post_file-old :
    (r : Request) (s : Files) (content : Bytes) (owners : List IdSecret) (body secret : Bytes)
    → lookup r.header.key s.disk ≡ some content
    → read_owners content ≡ some (owners, body)
    → secret_of r.header.from owners ≡ some secret
    → post_file_handler no_faults r s ≡ (
      respond (answer (increment_clock s.clock r.header.clock) secret []),
      record {
        disk =
            insert r.header.key
              (old_header owners r.header.shared_with ++ r.body)
              (erase r.header.key s.disk);
        clock = increment_clock s.clock r.header.clock;
      },
    )
unfolding post_file_handler get
post_file-old r s content owners body secret e p q =
    rw (
      e,
      p,
      q,
      post-no_faults s.disk r.header.key (old_header owners r.header.shared_with ++ r.body),
    )

-- On a disk where nothing fails, after a file that was not there was created with secrets of 256
-- bytes and shared with fewer than 255 users, a reader gets the posted data and the own secret if
-- it is the creator or one of these users, and the error if not.
pub get_file-post_file_new :
    (r g : Request) (s : Files)
    → lookup r.header.key s.disk ≡ none
    → AllFit (owners_of_new r.header.from r.header.secret r.header.shared_with)
    → length r.header.shared_with < 255
    → g.header.key ≡ r.header.key
    → (get_file_handler no_faults g (post_file_handler no_faults r s).1).0
      ≡ served r.body (
          secret_of g.header.from
            (owners_of_new r.header.from r.header.secret r.header.shared_with))
get_file-post_file_new r g s e fit l k =
    let after = (post_file_handler no_faults r s).1 in
    ap (λ (o : Outcome × Files). o.0)
      (get_file-served no_faults g after
        (new_header r.header.from r.header.secret r.header.shared_with ++ r.body)
        (owners_of_new r.header.from r.header.secret r.header.shared_with) r.body refl
        (rw (post_file-new r s e, k)
          (lookup-insert_self r.header.key _ (erase r.header.key s.disk)))
        (read_owners-new_header r.header.from r.header.secret r.header.shared_with r.body fit l))

-- On a disk where nothing fails, after an owner posted to a file again, its data are the new ones;
-- the owners are those it had and the users that the request shares it with, as long as all
-- identifiers and secrets have the header's sizes and the owners are at most 255.
pub get_file-post_file_old :
    (r g : Request) (s : Files) (content : Bytes) (owners : List IdSecret) (body secret : Bytes)
    → lookup r.header.key s.disk ≡ some content
    → read_owners content ≡ some (owners, body)
    → secret_of r.header.from owners ≡ some secret
    → AllFit (owners ++ as_pairs r.header.shared_with)
    → length owners + length r.header.shared_with < 256
    → g.header.key ≡ r.header.key
    → (get_file_handler no_faults g (post_file_handler no_faults r s).1).0
      ≡ served r.body (secret_of g.header.from (owners ++ as_pairs r.header.shared_with))
get_file-post_file_old r g s content owners body secret e p q fit l k =
    let after = (post_file_handler no_faults r s).1 in
    ap (λ (o : Outcome × Files). o.0)
      (get_file-served no_faults g after (old_header owners r.header.shared_with ++ r.body)
        (owners ++ as_pairs r.header.shared_with) r.body refl
        (rw (post_file-old r s content owners body secret e p q, k)
          (lookup-insert_self r.header.key _ (erase r.header.key s.disk)))
        (read_owners-old_header owners r.header.shared_with r.body fit l))

-- On a disk where nothing fails, an owner's deletion succeeds with the owner's secret; then a
-- reader gets the error, and a second deletion panics.
pub delete_file-removes :
    (r g : Request) (s : Files) (content : Bytes) (owners : List IdSecret) (body secret : Bytes)
    → lookup r.header.key s.disk ≡ some content
    → read_owners content ≡ some (owners, body)
    → secret_of r.header.from owners ≡ some secret
    → g.header.key ≡ r.header.key
    → ((delete_file_handler no_faults r s).0
        ≡ respond (answer (increment_clock s.clock r.header.clock) secret []))
      × ((get_file_handler no_faults g (delete_file_handler no_faults r s).1).0 ≡ refused)
      × ((delete_file_handler no_faults g (delete_file_handler no_faults r s).1).0 ≡ panic)
unfolding get_file_handler delete_file_handler get delete
delete_file-removes r g s content owners body secret e p q k =
    ground (arith, lookup-erase_self r.header.key s.disk)
