-- ===== src/File/Storage/Laws.antt =====
-- What the three operations leave on the disk.
use peerstore.Base.{Bytes, Option, ℕ, ◌≡◌, ◌≢◌, arith, ◌==◌, bytes_eq, if◌then◌else◌, none, some}
use peerstore.Base.{append-nil, drop-nil, refl}
use peerstore.Base.Dict.{
  lookup, lookup-insert, lookup-insert_ne, insert, lookup-erase, lookup-erase_self, lookup-erase_ne,
  erase,
}
use peerstore.Base.Result.{ok}
use peerstore.Models.Node.{Identifier}
use peerstore.File.Storage.{
  Disk, Faults, post, delete, no_faults, finish_write, old_content, remove_found,
}

-- Where nothing fails, a post removes the old file and writes the bytes.
pub post-no_faults :
    (d : Disk) (key : Identifier) (bytes : Bytes)
    → post no_faults d key bytes ≡ (ok tt, insert key bytes (erase key d))
unfolding post
post-no_faults d key bytes = rw (lookup-erase_self key d, drop-nil, append-nil)

-- Where nothing fails, `Post` succeeds; its key then holds exactly the bytes, and every other key what
-- it held.
pub post-lookup :
    (d : Disk) (key j : Identifier) (bytes : Bytes)
    → ((post no_faults d key bytes).0 ≡ ok tt)
      × (lookup j (post no_faults d key bytes).1 ≡ (if key == j then some bytes else lookup j d))
post-lookup d key j bytes =
    rw (post-no_faults d key bytes)
      (refl, ground (arith, lookup-insert key j bytes (erase key d), lookup-erase key j d))

finish_write-lookup_ne :
    (f : Faults) (d : Disk) (key j : Identifier) (bytes : Bytes) (w : Option ℕ)
    → key ≢ j
    → lookup j (finish_write f d key bytes (old_content (lookup key d)) w).1 ≡ lookup j d
finish_write-lookup_ne f d key j bytes none n = lookup-insert_ne key j _ d n
finish_write-lookup_ne f d key j bytes (some k) n = lookup-insert_ne key j _ d n

-- Whatever fails, no other key is touched.
pub post-lookup_ne :
    (f : Faults) (d : Disk) (key j : Identifier) (bytes : Bytes)
    → key ≢ j
    → lookup j (post f d key bytes).1 ≡ lookup j d
unfolding post
post-lookup_ne f d key j bytes n = ground (
  arith,
  lookup-erase_ne key j d n,
  finish_write-lookup_ne f d key j bytes f.write n,
  finish_write-lookup_ne f (erase key d) key j bytes f.write n,
)

pub delete-lookup :
    (f : Faults) (d : Disk) (key j : Identifier)
    → (delete f d key).0 ≡ ok tt
    → lookup j (delete f d key).1 ≡ (if key == j then none else lookup j d)
unfolding delete
delete-lookup f d key j h = ground (arith, lookup-erase key j d)

remove_found-lookup_ne :
    (f : Faults) (d : Disk) (key j : Identifier) (o : Option Bytes)
    → key ≢ j
    → lookup j (remove_found f d key o).1 ≡ lookup j d
remove_found-lookup_ne f d key j none n = refl
remove_found-lookup_ne f d key j (some content) n = ground (arith, lookup-erase_ne key j d n)

pub delete-lookup_ne :
    (f : Faults) (d : Disk) (key j : Identifier)
    → key ≢ j
    → lookup j (delete f d key).1 ≡ lookup j d
unfolding delete
delete-lookup_ne f d key j n = remove_found-lookup_ne f d key j (lookup key d) n
