-- ===== src/Client/Sync.antt =====
-- The transaction log in cmd/peerstore/client/main.go: the entry that `PostFile` and `DeleteFile` add, and
-- what `Synchronize` does about each resource of the log.
pub mod Laws
use peerstore.Base.{
  ℕ, String, string_eq, Option, none, some, List, [], ◌∷◌, ◌++◌, ltb, leb, ◌==◌, nat_eq,
  if◌then◌else◌,
}
use peerstore.Base.Dict.{Dict, lookup, insert}
use peerstore.Models.Node.{Identifier}
use peerstore.Models.TransactionLog.{Operation, update, delete, Entry, Entity, TransactionLog}

-- The entity with the new entry: appended to those that are there, or the first
abbrev pub with_entry : String → Identifier → Entry → Option Entity → Entity
with_entry path key e none = record { resource_name = path; resource_id = key; entries = e ∷ [] }
with_entry path key e (some v) = record v { entries = v.entries ++ e ∷ [] }

-- `key` is SHA-1 of the path, and the time that of the clock.
unfoldable pub record_entry :
    Operation → Identifier → ℕ → String → Identifier → TransactionLog → TransactionLog
record_entry op client time path key tl =
    insert path
      (with_entry path key (record { operation = op; client_id = client; timestamp = time })
        (lookup path tl))
      tl

-- The loop over the entries: the last of the latest
unfoldable pub last_loop : Entry → List Entry → Entry
last_loop last [] = last
last_loop last (e ∷ es) = last_loop (if leb last.timestamp e.timestamp then e else last) es

-- `Entries[0]` of an entity without entries is a panic: `none`.
unfoldable pub last_entry : List Entry → Option Entry
last_entry [] = none
last_entry (e ∷ es) = some (last_loop e (e ∷ es))

pub data Action : Type 0 where
  -- `GetFile`, `os.Remove`, none, `DeleteFile`, `PostFile`
  fetch remove_local keep delete_again post_again : Action

abbrev pub for_operation : Operation → Action → Action → Action
for_operation update a b = a
for_operation delete a b = b

abbrev pub compared : Entry → Entry → Action
compared old last =
    if ltb old.timestamp last.timestamp
    then for_operation last.operation fetch remove_local
    else if old.timestamp == last.timestamp
    then keep
    else for_operation old.operation post_again delete_again

abbrev against : Entry → Option Entry → Option Action
against last none = none
against last (some old) = some (compared old last)

abbrev in_old_log : Option Entry → Option Entity → Option Action
in_old_log none old = none
in_old_log (some last) none = some fetch
in_old_log (some last) (some old) = against last (last_entry old.entries)

-- One round of the loop over the log: `none` is a panic.
unfoldable pub sync_action : Entity → Option Entity → Option Action
sync_action v old = in_old_log (last_entry v.entries) old
