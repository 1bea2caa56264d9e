-- ===== src/Client/Apart.antt =====
-- The client against two servers, the peer that it talks to first and the node that is the successor of every
-- file, with the node's handlers of file/handlers.go behind each connection and no faults of the disks.
pub mod Again
use peerstore.Base.{
  ℕ, String, string_eq, Bool, true, Option, none, some, Bytes, ◌==◌, nat_eq, if◌then◌else◌,
}
use peerstore.Base.Dict.{Dict, lookup, insert, erase}
use peerstore.Base.Result.{Result, ok, panic}
use peerstore.Models.Node.{Node}
use peerstore.Protocol.Message.{Request, Response, error_response}
use peerstore.Protocol.Message.{
  get_successor_method, get_file_method, post_file_method, delete_file_method,
}
use peerstore.File.Storage.{no_faults}
use peerstore.File.Handlers.{
  Files, Outcome, refused, get_file_handler, post_file_handler, delete_file_handler,
}
use peerstore.Client.Requests.{Net, Machine}
use peerstore.Client.Direct.{answer_of, successor_response}

-- The files of the two servers, and the client's
pub record Sites : Type 0 where
  pub node_files : Files
  pub peer_files : Files
  pub own_files : Dict String Bytes
  pub own_clock : ℕ

-- A request for a file, at one server
abbrev pub on_disk : Request → Files → Outcome × Files
on_disk r files =
    if r.method == get_file_method
    then get_file_handler no_faults r files
    else if r.method == post_file_method
    then post_file_handler no_faults r files
    else if r.method == delete_file_method
    then delete_file_handler no_faults r files
    else (refused, files)

abbrev pub at_node : Sites → Outcome × Files → Result Response × Sites
at_node s (o, files) = (answer_of o, record s { node_files = files })

abbrev pub at_peer : Sites → Outcome × Files → Result Response × Sites
at_peer s (o, files) = (answer_of o, record s { peer_files = files })

module _ (encode_node : Node → Bytes) (node : Node) where
  unfoldable pub at_address : String → Request → Sites → Result Response × Sites
  at_address addr r s =
      if r.method == get_successor_method
      then (ok (successor_response (encode_node node)), s)
      else if addr == node.addr
      then at_node s (on_disk r s.node_files)
      else at_peer s (on_disk r s.peer_files)

  abbrev pub connected : Option String → Request → Sites → Result Response × Sites
  connected none r s = (panic, s)
  connected (some addr) r s = at_address addr r s

  abbrev pub two_servers : Net Sites
  two_servers = record { dial = λ addr s. (true, s); trip = λ t r s. connected t.conn r s }

-- The client's own files, with no faults
abbrev pub own_machine : Machine Sites
own_machine = record {
  read_file = λ path s. lookup path s.own_files;
  write_file = λ path b s. (true, record s { own_files = insert path b s.own_files });
  remove_file = λ path s. record s { own_files = erase path s.own_files };
  make_dir = λ path s. s;
  clock = λ s. s.own_clock;
  set_clock = λ n s. record s { own_clock = n };
}
