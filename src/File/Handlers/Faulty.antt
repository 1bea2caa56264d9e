-- ===== src/File/Handlers/Faulty.antt =====
-- Requests that the handlers treat otherwise than they mean to.
use peerstore.Base.{
  ℕ, ◌+◌, ◌%◌, ◌<◌, ◌≤◌, ◌≡◌, refl, ◌∙◌, ap, true, false, none, some, arith, List, [], ◌∷◌,
}
use peerstore.Base.{◌++◌, append-nil, Bytes, length, take, drop}
use peerstore.Base.{bytes_eq, bytes_beq_iff}
use peerstore.Base.Dict.{lookup, erase, lookup-insert_self}
use peerstore.Models.Node.{Identifier}
use peerstore.Protocol.Message.{Request}
use peerstore.File.Storage.{Disk, Faults, no_faults, get, post}
use peerstore.File.Storage.Laws.{post-no_faults}
use peerstore.File.Owners.{
  IdSecret, AllFit, owners_of_new, read, read_owners, read_pairs, secret_of, find_secret,
  new_header, shared_bytes,
}
use peerstore.File.Owners.RoundTrip.{read-append, read_owners-new_header}
use peerstore.File.Handlers.{
  Files, Outcome, respond, refused, answer, get_file_handler, post_file_handler,
}
use peerstore.File.Handlers.{delete_file_handler, post_public_key_handler}
use peerstore.File.Handlers.Access.{served, get_file-served, stranger_refused, post_file-new}

-- `byte(1 + len(r.Header.SharedWith))` is 0 for 255 users: the header of the new file names nobody.
pub too_many_owners-none :
    (r : Request)
    → length r.header.shared_with ≡ 255
    → let content = new_header r.header.from r.header.secret r.header.shared_with ++ r.body in
      read_owners content ≡ some ([], drop 1 content)
unfolding new_header read_owners read_pairs
too_many_owners-none r l =
    let count : (1 + length r.header.shared_with) % 256 ≡ 0 = omega arith in rw count

-- On a disk where nothing fails, the next get, post or deletion of it by anybody, its creator included, is refused.
pub too_many_owners_locked :
    (r g : Request) (s : Files)
    → lookup r.header.key s.disk ≡ none
    → length r.header.shared_with ≡ 255
    → g.header.key ≡ r.header.key
    → let after = (post_file_handler no_faults r s).1 in
      (get_file_handler no_faults g after ≡ (refused, after))
      × ((post_file_handler no_faults g after).0 ≡ refused)
      × ((post_file_handler no_faults g after).1.disk ≡ after.disk)
      × ((delete_file_handler no_faults g after).0 ≡ refused)
      × ((delete_file_handler no_faults g after).1.disk ≡ after.disk)
too_many_owners_locked r g s e l k =
    let content = new_header r.header.from r.header.secret r.header.shared_with ++ r.body in
    stranger_refused no_faults g (post_file_handler no_faults r s).1 content [] (drop 1 content)
      refl
      (rw (post_file-new r s e, k)
        (lookup-insert_self r.header.key content (erase r.header.key s.disk)))
      (too_many_owners-none r l) (λ o. o)

-- The one pair that a header without a secret is read as
abbrev owner_of : Request → List IdSecret
owner_of r = record { id = r.header.from; secret = take 256 r.body } ∷ []

secret_of-owner_of : (r : Request) → secret_of r.header.from (owner_of r) ≡ some (take 256 r.body)
unfolding find_secret
secret_of-owner_of r = rw ((bytes_beq_iff r.header.from r.header.from).1 refl)

read-take :
    (n : ℕ) (content : Bytes)
    → n ≤ length content
    → read n content ≡ some (take n content, drop n content)
unfolding read
read-take n content h = ground arith

read_owners-secretless :
    (r : Request)
    → length r.header.from ≡ 20
    → 256 ≤ length r.body
    → read_owners (new_header r.header.from [] [] ++ r.body) ≡ some (owner_of r, drop 256 r.body)
unfolding new_header shared_bytes read_owners read_pairs
read_owners-secretless r i l =
    rw (append-nil r.header.from, read-append 20 r.header.from r.body i, read-take 256 r.body l)

-- A file that is posted with an empty secret, as the client's `PostFile` does, comes back without its
-- first 256 bytes: they are taken for the secret.
pub secretless_post_truncated :
    (r g : Request) (s : Files)
    → lookup r.header.key s.disk ≡ none
    → length r.header.from ≡ 20
    → r.header.secret ≡ []
    → r.header.shared_with ≡ []
    → 256 ≤ length r.body
    → g.header.key ≡ r.header.key
    → g.header.from ≡ r.header.from
    → (get_file_handler no_faults g (post_file_handler no_faults r s).1).0
      ≡ respond (answer 0 (take 256 r.body) (drop 256 r.body))
secretless_post_truncated r g s e i sec sh l k v =
    let content = new_header r.header.from r.header.secret r.header.shared_with ++ r.body in
    let stored : lookup g.header.key (post_file_handler no_faults r s).1.disk ≡ some content =
      rw (post_file-new r s e, k)
        (lookup-insert_self r.header.key content (erase r.header.key s.disk)) in
    let parsed : read_owners content ≡ some (owner_of r, drop 256 r.body) =
      rw (sec, sh) (read_owners-secretless r i l) in
    ap (λ (o : Outcome × Files). o.0)
      (get_file-served no_faults g (post_file_handler no_faults r s).1 content (owner_of r)
        (drop 256 r.body) refl stored parsed)
    ∙ rw (v, secret_of-owner_of r)

-- The system refuses to open the file that is there, and nothing else.
abbrev pub unreadable : Faults
unreadable = record {
  open_found = true;
  remove = false;
  open_new = false;
  write = none;
  close = false;
}

post-unreadable :
    (d : Disk) (key : Identifier) (bytes : Bytes)
    → post unreadable d key bytes ≡ post no_faults d key bytes
unfolding post
post-unreadable d key bytes = refl

post_file-unreadable :
    (r : Request) (s : Files) (content : Bytes)
    → lookup r.header.key s.disk ≡ some content
    → lookup r.header.key (post_file_handler unreadable r s).1.disk
      ≡ some (new_header r.header.from r.header.secret r.header.shared_with ++ r.body)
unfolding post_file_handler get
post_file-unreadable r s content e =
    let bytes = new_header r.header.from r.header.secret r.header.shared_with ++ r.body in
    rw (e, post-unreadable s.disk r.header.key bytes, post-no_faults s.disk r.header.key bytes)
      (lookup-insert_self r.header.key bytes (erase r.header.key s.disk))

-- Any error of `Get` counts as a missing file: if the file is there and only its opening fails, a
-- stranger's post replaces it, and the stranger is its owner.
pub unreadable_file_replaced :
    (r g : Request) (s : Files) (content : Bytes)
    → lookup r.header.key s.disk ≡ some content
    → AllFit (owners_of_new r.header.from r.header.secret r.header.shared_with)
    → length r.header.shared_with < 255
    → g.header.key ≡ r.header.key
    → (get_file_handler no_faults g (post_file_handler unreadable r s).1).0
      ≡ served r.body (
          secret_of g.header.from
            (owners_of_new r.header.from r.header.secret r.header.shared_with))
unreadable_file_replaced r g s content e fit l k =
    let bytes = new_header r.header.from r.header.secret r.header.shared_with ++ r.body in
    ap (λ (o : Outcome × Files). o.0)
      (get_file-served no_faults g (post_file_handler unreadable r s).1 bytes
        (owners_of_new r.header.from r.header.secret r.header.shared_with) r.body refl
        (rw k (post_file-unreadable r s content e))
        (read_owners-new_header r.header.from r.header.secret r.header.shared_with r.body fit l))

-- A public key is posted under any identifier, whoever owns the file there.
pub post_public_key_replaces :
    (r : Request) (s : Files)
    → lookup r.header.key (post_public_key_handler no_faults r s).1.disk ≡ some r.body
unfolding post_public_key_handler
post_public_key_replaces r s =
    rw (post-no_faults s.disk r.header.key r.body)
      (lookup-insert_self r.header.key r.body (erase r.header.key s.disk))
