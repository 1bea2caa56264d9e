-- ===== src/File/Handlers.antt =====
-- The handlers of file/handlers.go. `fileMu` makes each run alone; the disk and the global Lamport
-- clock of models are their state. Each returns at most once: with a response or in a panic.
pub mod Reading
pub mod Access
pub mod Frame
pub mod Ownership
pub mod Faulty
pub mod Responds
use peerstore.Base.{ℕ, zero, suc, ◌+◌, Option, none, some, Bool, true, false, List, [], ◌∷◌, ◌++◌}
use peerstore.Base.{Bytes, length, take, drop}
use peerstore.Base.Result.{Result, ok, err}
use peerstore.Models.Clock.{increment_clock}
use peerstore.Protocol.Message.{Header, zero_header, Request, Response, success, error_response}
use peerstore.File.Storage.{Disk, Faults, Opened, found, missing, unopened, get, post, delete}
use peerstore.File.Owners.{IdSecret, read_owners, secret_of, new_header, old_header}

pub record Files : Type 0 where
  pub disk : Disk
  pub clock : ℕ

pub data Outcome : Type 0 where
  respond : Response → Outcome
  -- A nil pointer was used.
  panic : Outcome
  -- The model's loop ran out of fuel.
  stuck : Outcome

abbrev pub refused : Outcome
refused = respond error_response

-- `for n := 1; n > 0; { n, err = buf.Read(tmp); ... }`: chunks of 256 bytes until a read yields none
unfoldable pub read_loop : ℕ → Bytes → Bytes → Option Bytes
read_loop zero rest collected = none
read_loop (suc fuel) [] collected = some collected
read_loop (suc fuel) (b ∷ rest) collected =
    read_loop fuel (drop 256 (b ∷ rest)) (collected ++ take 256 (b ∷ rest))

-- One read for each byte and the one that finds the end are enough.
unfoldable pub read_rest : Bytes → Option Bytes
unfolding read_loop
read_rest rest = read_loop (suc (length rest)) rest []

-- A successful response with this clock, secret and data
abbrev pub answer : ℕ → Bytes → Bytes → Response
answer clock secret body = record {
  header = record zero_header { clock = clock; secret = secret };
  status = success;
  body = body;
}

abbrev answer_rest : ℕ → Bytes → Option Bytes → Outcome
answer_rest clock secret none = stuck
answer_rest clock secret (some body) = respond (answer clock secret body)

abbrev public_key_opened : ℕ → Opened → Outcome
public_key_opened clock (found content) = answer_rest clock [] (read_rest content)
public_key_opened clock (missing e) = refused
public_key_opened clock (unopened e) = refused

unfoldable pub get_public_key_handler : Faults → Request → Files → Outcome × Files
get_public_key_handler f r s =
    let timestamp = increment_clock s.clock r.header.clock in
    (public_key_opened timestamp (get f s.disk r.header.key), record s { clock = timestamp })

-- The last secret of the caller is the response's.
abbrev get_file_owned : Bytes → Option Bytes → Outcome
get_file_owned body none = refused
get_file_owned body (some secret) = answer_rest 0 secret (read_rest body)

abbrev get_file_read : Request → Option (List IdSecret × Bytes) → Outcome
get_file_read r none = refused
get_file_read r (some (owners, body)) = get_file_owned body (secret_of r.header.from owners)

abbrev get_file_opened : Request → Opened → Outcome
get_file_opened r (found content) = get_file_read r (read_owners content)
get_file_opened r (missing e) = refused
get_file_opened r (unopened e) = refused

unfoldable pub get_file_handler : Faults → Request → Files → Outcome × Files
get_file_handler f r s = (get_file_opened r (get f s.disk r.header.key), s)

-- The response to a post: `response.Status` is set last, and an error drops the response so far.
abbrev posted : ℕ → Bytes → Result (Unit {0}) × Disk → Outcome × Files
posted clock secret (ok _, d) =
    (respond (answer clock secret []), record { disk = d; clock = clock })
posted clock secret (err e, d) = (refused, record { disk = d; clock = clock })
posted clock secret (Result.panic, d) = (panic, record { disk = d; clock = clock })

unfoldable pub post_public_key_handler : Faults → Request → Files → Outcome × Files
post_public_key_handler f r s =
    posted (increment_clock s.clock r.header.clock) [] (post f s.disk r.header.key r.body)

abbrev post_new : Faults → Request → Disk → ℕ → Outcome × Files
post_new f r d clock =
    let header = new_header r.header.from r.header.secret r.header.shared_with in
    posted clock [] (post f d r.header.key (header ++ r.body))

abbrev post_owned : Faults → Request → Disk → ℕ → List IdSecret → Option Bytes → Outcome × Files
post_owned f r d clock owners none = (refused, record { disk = d; clock = clock })
post_owned f r d clock owners (some secret) =
    posted clock secret (post f d r.header.key (old_header owners r.header.shared_with ++ r.body))

abbrev post_read : Faults → Request → Disk → ℕ → Option (List IdSecret × Bytes) → Outcome × Files
post_read f r d clock none = (refused, record { disk = d; clock = clock })
post_read f r d clock (some (owners, body)) =
    post_owned f r d clock owners (secret_of r.header.from owners)

-- Any error of `Get` counts as a file that does not exist.
abbrev post_opened : Faults → Request → Disk → ℕ → Opened → Outcome × Files
post_opened f r d clock (found content) = post_read f r d clock (read_owners content)
post_opened f r d clock (missing e) = post_new f r d clock
post_opened f r d clock (unopened e) = post_new f r d clock

unfoldable pub post_file_handler : Faults → Request → Files → Outcome × Files
post_file_handler f r s =
    post_opened f r s.disk (increment_clock s.clock r.header.clock) (get f s.disk r.header.key)

-- The deletion itself, for a caller with this secret
abbrev deleted : ℕ → Bytes → Result (Unit {0}) × Disk → Outcome × Files
deleted clock secret (ok _, d) =
    (respond (answer clock secret []), record { disk = d; clock = clock })
deleted clock secret (err e, d) = (refused, record { disk = d; clock = clock })
deleted clock secret (Result.panic, d) = (panic, record { disk = d; clock = clock })

abbrev delete_owned : Faults → Request → Disk → ℕ → Option Bytes → Outcome × Files
delete_owned f r d clock none = (refused, record { disk = d; clock = clock })
delete_owned f r d clock (some secret) = deleted clock secret (delete f d r.header.key)

-- The clock is incremented after the header was read.
abbrev delete_read : Faults → Request → Files → Option (List IdSecret × Bytes) → Outcome × Files
delete_read f r s none = (refused, s)
delete_read f r s (some (owners, body)) =
    delete_owned f r s.disk (increment_clock s.clock r.header.clock)
      (secret_of r.header.from owners)

-- `buf.Close()` on the nil interface that `Get` returns for a missing file is a panic; on a nil
-- `*os.File` it is an error that is dropped.
abbrev delete_opened : Faults → Request → Files → Opened → Outcome × Files
delete_opened f r s (found content) = delete_read f r s (read_owners content)
delete_opened f r s (missing e) = (panic, s)
delete_opened f r s (unopened e) = (refused, s)

unfoldable pub delete_file_handler : Faults → Request → Files → Outcome × Files
delete_file_handler f r s = delete_opened f r s (get f s.disk r.header.key)
