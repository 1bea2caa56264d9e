-- ===== src/File/Service.antt =====
-- An abstract view of the files and their handlers in file/handlers.go, without the layout of a file and without
-- clocks: a map from identifiers to owned data, and three calls.
pub mod Refinement
use peerstore.Base.{
  ℕ, ◌+◌, ◌<◌, ◌≡◌, Option, none, some, List, [], ◌∷◌, ◌++◌, Bytes, bytes_eq, nat_eq, ◌==◌, length,
  if◌then◌else◌,
}
use peerstore.Base.Dict.{lookup}
use peerstore.Models.Node.{Identifier}
use peerstore.Protocol.Message.{Request, success}
use peerstore.File.Storage.{Disk, no_faults}
use peerstore.File.Owners.{IdSecret, read_owners, secret_of, owners_of_new, as_pairs, AllFit}
use peerstore.File.Handlers.{
  Files, Outcome, respond, get_file_handler, post_file_handler, delete_file_handler,
}

-- Owners with their secrets, and the data
abbrev pub Shared : Type 0
Shared = List IdSecret × Bytes

abbrev pub Service : Type 0
Service = Identifier → Option Shared

pub data Call : Type 0 where
  gets posts deletes : Request → Call

-- A call is granted with the caller's secret and data, denied, or kills the server; `hung` does not answer.
pub data Reply : Type 0 where
  granted : Bytes → Bytes → Reply
  denied killed hung : Reply

abbrev pub request_of : Call → Request
request_of (gets r) = r
request_of (posts r) = r
request_of (deletes r) = r

abbrev get_owned : Bytes → Option Bytes → Reply
get_owned body none = denied
get_owned body (some secret) = granted secret body

abbrev post_owned : Request → List IdSecret → Bytes → Option Bytes → Reply × Option Shared
post_owned r owners body none = (denied, some (owners, body))
post_owned r owners body (some secret) =
    (granted secret [], some (owners ++ as_pairs r.header.shared_with, r.body))

abbrev delete_owned : List IdSecret → Bytes → Option Bytes → Reply × Option Shared
delete_owned owners body none = (denied, some (owners, body))
delete_owned owners body (some secret) = (granted secret [], none)

-- The call on what its identifier has
abbrev pub serve : Call → Option Shared → Reply × Option Shared
serve (gets r) none = (denied, none)
serve (gets r) (some (owners, body)) =
    (get_owned body (secret_of r.header.from owners), some (owners, body))
serve (posts r) none =
    (granted [] [], some (owners_of_new r.header.from r.header.secret r.header.shared_with, r.body))
serve (posts r) (some (owners, body)) = post_owned r owners body (secret_of r.header.from owners)
serve (deletes r) none = (killed, none)
serve (deletes r) (some (owners, body)) = delete_owned owners body (secret_of r.header.from owners)

abbrev pub key_of : Call → Identifier
key_of c = (request_of c).header.key

abbrev pub assign : Identifier → Option Shared → Service → Service
assign key v a other = if key == other then v else a other

abbrev pub next : Call → Service → Service
next c a = assign (key_of c) (serve c (a (key_of c))).1 a

unfoldable pub replies : List Call → Service → List Reply
replies [] a = []
replies (c ∷ cs) a = (serve c (a (key_of c))).0 ∷ replies cs (next c a)

-- The same calls of the handlers, on a disk where nothing fails
abbrev pub handle : Call → Files → Outcome × Files
handle (gets r) s = get_file_handler no_faults r s
handle (posts r) s = post_file_handler no_faults r s
handle (deletes r) s = delete_file_handler no_faults r s

abbrev pub reply_of : Outcome → Reply
reply_of (respond resp) =
    if resp.status == success then granted resp.header.secret resp.body else denied
reply_of Outcome.panic = killed
reply_of Outcome.stuck = hung

unfoldable pub handled_replies : List Call → Files → List Reply
handled_replies [] s = []
handled_replies (c ∷ cs) s = let (o, s') = handle c s in reply_of o ∷ handled_replies cs s'

-- A post keeps to the sizes of the header's layout: identifiers of 20 bytes, secrets of 256, at most 255 owners.
abbrev pub PostFits : Request → Option Shared → Type 0
PostFits r none =
    AllFit (owners_of_new r.header.from r.header.secret r.header.shared_with)
    × (length r.header.shared_with < 255)
PostFits r (some (owners, body)) =
    AllFit (as_pairs r.header.shared_with) × (length owners + length r.header.shared_with < 256)

abbrev pub CallFits : Call → Option Shared → Type 0
CallFits (gets r) v = Unit
CallFits (posts r) v = PostFits r v
CallFits (deletes r) v = Unit

abbrev pub CallsFit : List Call → Service → Type 0
CallsFit [] a = Unit
CallsFit (c ∷ cs) a = CallFits c (a (key_of c)) × CallsFit cs (next c a)

-- A file of the disk that has these owners and data
abbrev pub Shows : Option Bytes → Option Shared → Type 0
Shows o none = o ≡ none
Shows o (some v) = (content : Bytes) × (o ≡ some content) × (read_owners content ≡ some v)

abbrev pub Represents : Disk → Service → Type 0
Represents d a = (key : Identifier) → Shows (lookup key d) (a key)
