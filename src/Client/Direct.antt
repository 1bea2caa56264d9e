-- ===== src/Client/Direct.antt =====
-- The client against one node that holds every file: the node's handlers of file/handlers.go behind each
-- connection, with no faults of the disk. Authentication and encryption lie between them, and are the subject of
-- Protocol.Connection and Protocol.Envelope.
pub mod Steps
pub mod Backup
pub mod Stored
pub mod Again
pub mod Share
use peerstore.Base.{
  ℕ, String, string_eq, Bool, true, false, Option, none, some, Bytes, [], ◌==◌, nat_eq,
  if◌then◌else◌,
}
use peerstore.Base.Dict.{Dict, lookup, insert, erase}
use peerstore.Base.Result.{Error, cause, Result, ok, err, panic}
use peerstore.Models.Node.{Node}
use peerstore.Protocol.Message.{Request, Response, zero_header, success, error_response}
use peerstore.Protocol.Message.{
  get_successor_method, get_file_method, post_file_method, delete_file_method,
}
use peerstore.Protocol.Transport.{Transport}
use peerstore.File.Storage.{no_faults}
use peerstore.File.Handlers.{
  Files, Outcome, respond, get_file_handler, post_file_handler, delete_file_handler,
}
use peerstore.Client.Requests.{Net, Machine}

-- The node's files and the client's
pub record Site : Type 0 where
  pub files : Files
  pub own_files : Dict String Bytes
  pub own_clock : ℕ

-- A handler that panics ends the server, and the connection with it.
abbrev pub answer_of : Outcome → Result Response
answer_of (respond resp) = ok resp
answer_of Outcome.panic = err (cause "EOF")
answer_of Outcome.stuck = err (cause "EOF")

abbrev pub handled : Site → Outcome × Files → Result Response × Site
handled s (o, files) = (answer_of o, record s { files = files })

abbrev pub successor_response : Bytes → Response
successor_response body = record { header = zero_header; status = success; body = body }

module _ (encode_node : Node → Bytes) (node : Node) where
  unfoldable pub at_node : Request → Site → Result Response × Site
  at_node r s =
      if r.method == get_successor_method
      then (ok (successor_response (encode_node node)), s)
      else if r.method == get_file_method
      then handled s (get_file_handler no_faults r s.files)
      else if r.method == post_file_method
      then handled s (post_file_handler no_faults r s.files)
      else if r.method == delete_file_method
      then handled s (delete_file_handler no_faults r s.files)
      else (ok error_response, s)

  abbrev pub connected : Option String → Request → Site → Result Response × Site
  connected none r s = (panic, s)
  connected (some addr) r s = at_node r s

  abbrev pub direct : Net Site
  direct = record { dial = λ addr s. (true, s); trip = λ t r s. connected t.conn r s }

-- The client's own files, with no faults
abbrev pub own_machine : Machine Site
own_machine = record {
  read_file = λ path s. lookup path s.own_files;
  write_file = λ path b s. (true, record s { own_files = insert path b s.own_files });
  remove_file = λ path s. record s { own_files = erase path s.own_files };
  make_dir = λ path s. s;
  clock = λ s. s.own_clock;
  set_clock = λ n s. record s { own_clock = n };
}
