-- ===== src/File/Handlers/Frame.antt =====
-- A request changes no file but the one that it names.
use peerstore.Base.{ℕ, ◌≡◌, ◌≢◌, refl, Option, none, some, List, [], Bytes, ◌++◌}
use peerstore.Base.Result.{Result, ok, err}
use peerstore.Base.Dict.{lookup}
use peerstore.Base.{bytes_eq}
use peerstore.Models.Node.{Identifier}
use peerstore.Protocol.Message.{Request}
use peerstore.File.Storage.{Disk, Faults, Opened, found, missing, unopened, get, post, delete}
use peerstore.File.Storage.Laws.{post-lookup_ne, delete-lookup_ne}
use peerstore.File.Owners.{IdSecret, read_owners, secret_of, old_header, new_header}
use peerstore.File.Handlers.{
  Files, posted, deleted, post_owned, post_read, post_opened, post_file_handler,
}
use peerstore.File.Handlers.{post_public_key_handler, delete_owned, delete_read, delete_opened}
use peerstore.File.Handlers.{delete_file_handler}

posted-disk :
    (c : ℕ) (secret : Bytes) (x : Result (Unit {0}) × Disk) → (posted c secret x).1.disk ≡ x.1
posted-disk c secret (ok _, d) = refl
posted-disk c secret (err e, d) = refl
posted-disk c secret (Result.panic, d) = refl

deleted-disk :
    (c : ℕ) (secret : Bytes) (x : Result (Unit {0}) × Disk) → (deleted c secret x).1.disk ≡ x.1
deleted-disk c secret (ok _, d) = refl
deleted-disk c secret (err e, d) = refl
deleted-disk c secret (Result.panic, d) = refl

module _ (f : Faults) (r : Request) (key : Identifier) (n : r.header.key ≢ key) where
  posted-lookup :
      (d : Disk) (c : ℕ) (secret bytes : Bytes)
      → lookup key (posted c secret (post f d r.header.key bytes)).1.disk ≡ lookup key d
  posted-lookup d c secret bytes =
      rw (posted-disk c secret (post f d r.header.key bytes))
        (post-lookup_ne f d r.header.key key bytes n)

  post_owned-lookup :
      (d : Disk) (c : ℕ) (owners : List IdSecret) (o : Option Bytes)
      → lookup key (post_owned f r d c owners o).1.disk ≡ lookup key d
  post_owned-lookup d c owners none = refl
  post_owned-lookup d c owners (some secret) =
      posted-lookup d c secret (old_header owners r.header.shared_with ++ r.body)

  post_read-lookup :
      (d : Disk) (c : ℕ) (o : Option (List IdSecret × Bytes))
      → lookup key (post_read f r d c o).1.disk ≡ lookup key d
  post_read-lookup d c none = refl
  post_read-lookup d c (some (owners, body)) =
      post_owned-lookup d c owners (secret_of r.header.from owners)

  post_opened-lookup :
      (d : Disk) (c : ℕ) (o : Opened) → lookup key (post_opened f r d c o).1.disk ≡ lookup key d
  post_opened-lookup d c (found content) = post_read-lookup d c (read_owners content)
  post_opened-lookup d c (missing e) =
      posted-lookup d c [] (new_header r.header.from r.header.secret r.header.shared_with ++ r.body)
  post_opened-lookup d c (unopened e) =
      posted-lookup d c [] (new_header r.header.from r.header.secret r.header.shared_with ++ r.body)

  delete_owned-lookup :
      (d : Disk) (c : ℕ) (o : Option Bytes)
      → lookup key (delete_owned f r d c o).1.disk ≡ lookup key d
  delete_owned-lookup d c none = refl
  delete_owned-lookup d c (some secret) =
      rw (deleted-disk c secret (delete f d r.header.key)) (delete-lookup_ne f d r.header.key key n)

  delete_read-lookup :
      (s : Files) (o : Option (List IdSecret × Bytes))
      → lookup key (delete_read f r s o).1.disk ≡ lookup key s.disk
  delete_read-lookup s none = refl
  delete_read-lookup s (some (owners, body)) =
      delete_owned-lookup s.disk _ (secret_of r.header.from owners)

  delete_opened-lookup :
      (s : Files) (o : Opened) → lookup key (delete_opened f r s o).1.disk ≡ lookup key s.disk
  delete_opened-lookup s (found content) = delete_read-lookup s (read_owners content)
  delete_opened-lookup s (missing e) = refl
  delete_opened-lookup s (unopened e) = refl

  -- Posting a file, posting a public key and deleting leave every other file as it was, whatever fails.
  pub other_files_kept :
      (s : Files)
      → (lookup key (post_file_handler f r s).1.disk ≡ lookup key s.disk)
        × (lookup key (post_public_key_handler f r s).1.disk ≡ lookup key s.disk)
        × (lookup key (delete_file_handler f r s).1.disk ≡ lookup key s.disk)
  unfolding post_file_handler post_public_key_handler delete_file_handler
  other_files_kept s = (
    post_opened-lookup s.disk _ (get f s.disk r.header.key),
    posted-lookup s.disk _ [] r.body,
    delete_opened-lookup s (get f s.disk r.header.key),
  )
