-- ===== src/File/Storage.antt =====
-- file/storage.go: one file for each identifier under the data path. The file's name is the hexadecimal
-- form of the identifier, so the directory is a map from identifiers to contents. What the operating
-- system refuses during a call is an argument.
pub mod Laws
use peerstore.Base.{
  ℕ, Bool, false, true, Option, none, some, Bytes, length, take, drop, ◌++◌, [], ◌∷◌,
}
use peerstore.Base.{bytes_eq, if◌then◌else◌}
use peerstore.Base.Dict.{Dict, lookup, insert, erase}
use peerstore.Base.Result.{Error, cause, wrap, Result, ok, err}
use peerstore.Models.Node.{Identifier}

abbrev pub Disk : Type 0
Disk = Dict Identifier Bytes

pub record Faults : Type 0 where
  -- `OpenFile` fails for a file that `Stat` found.
  pub open_found : Bool
  -- `Remove` fails.
  pub remove : Bool
  -- `OpenFile` fails for the file that is to be written.
  pub open_new : Bool
  -- `Copy` fails after this many bytes.
  pub write : Option ℕ
  -- `Close` fails.
  pub close : Bool

abbrev pub no_faults : Faults
no_faults = record {
  open_found = false;
  remove = false;
  open_new = false;
  write = none;
  close = false;
}

-- What `Get` returns: an open file with its contents, a nil reader with the error of `Stat`, or a reader
-- that wraps a nil `*os.File` with the error of `OpenFile`.
pub data Opened : Type 0 where
  found : Bytes → Opened
  missing : Error → Opened
  unopened : Error → Opened

abbrev open_stat : Faults → Option Bytes → Opened
open_stat f none = missing (cause "stat")
open_stat f (some content) =
    if f.open_found then unopened (wrap "error opening file" (cause "open")) else found content

unfoldable pub get : Faults → Disk → Identifier → Opened
get f d key = open_stat f (lookup key d)

-- The contents from which a write starts: those of a file that could not be removed, or none.
abbrev old_content : Option Bytes → Bytes
old_content none = []
old_content (some content) = content

-- Bytes written at the start of a file, with no truncation
abbrev overwrite : Bytes → Bytes → Bytes
overwrite new_bytes old = new_bytes ++ drop (length new_bytes) old

abbrev finish_write :
    Faults → Disk → Identifier → Bytes → Bytes → Option ℕ → Result (Unit {0}) × Disk
finish_write f d key bytes old (some n) =
    (err (wrap "error writing file" (cause "write")), insert key (overwrite (take n bytes) old) d)
finish_write f d key bytes old none = (
  if f.close then err (wrap "error closing file" (cause "close")) else ok tt,
  insert key (overwrite bytes old) d,
)

abbrev write_new : Faults → Disk → Identifier → Bytes → Result (Unit {0}) × Disk
write_new f d key bytes =
    if f.open_new
    then (err (wrap "error opening file" (cause "open")), d)
    else finish_write f d key bytes (old_content (lookup key d)) f.write

-- An error of the first `Remove` is dropped.
unfoldable pub post : Faults → Disk → Identifier → Bytes → Result (Unit {0}) × Disk
post f d key bytes = write_new f (if f.remove then d else erase key d) key bytes

abbrev remove_found : Faults → Disk → Identifier → Option Bytes → Result (Unit {0}) × Disk
remove_found f d key none = (err (wrap "failed to remove file: " (cause "remove")), d)
remove_found f d key (some content) =
    if f.remove
    then (err (wrap "failed to remove file: " (cause "remove")), d)
    else (ok tt, erase key d)

unfoldable pub delete : Faults → Disk → Identifier → Result (Unit {0}) × Disk
delete f d key = remove_found f d key (lookup key d)
