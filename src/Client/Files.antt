-- ===== src/Client/Files.antt =====
-- `GetFile`, `PostFile`, `DeleteFile` and `Synchronize` of cmd/peerstore/client/main.go. An error ends a
-- `GetFile`, and is only logged by the others, which go on with the zero value.
pub mod Leaves
pub mod Frame
pub mod Lost
pub mod Settled
use peerstore.Base.{
  ℕ, String, string_eq, Bool, true, false, Option, none, some, List, [], ◌∷◌, Bytes, length, ◌==◌,
  nat_eq, if◌then◌else◌,
}
use peerstore.Base.Dict.{lookup}
use peerstore.Base.Result.{Error, new, cause, Result, ok, err, panic}
use peerstore.Base.Act.{Act, ◌>>=◌, pure, lift, ignore_error}
use peerstore.Models.Node.{Identifier, PrivateKey, Node, zero_identifier}
use peerstore.Models.TransactionLog.{Operation, update, delete, Entity, TransactionLog}
use peerstore.Protocol.Message.{
  Header, zero_header, Request, Response, zero_response, user_type, error,
}
use peerstore.Protocol.Message.{get_successor_method, post_file_method}
use peerstore.Client.Requests.{
  Net, Machine, Codecs, file_to_key_identifier, open_transport, successor_request, get_request,
  tick,
}
use peerstore.Client.Operations.{or_nil}
use peerstore.Client.Log.{log_header, decoded_node, get_transaction_log, put_transaction_log}
use peerstore.Client.Sync.{
  record_entry, sync_action, Action, fetch, remove_local, keep, delete_again, post_again,
}

abbrev not_refused : Response → Result (Unit {0})
not_refused resp =
    if resp.status == error then err (new "failed to get resource requested.") else ok tt

abbrev pub post_header : Codecs → Identifier → PrivateKey → String → Bytes → ℕ → Header
post_header g client self path body now = record zero_header {
  key = file_to_key_identifier g path;
  caller = user_type;
  from = client;
  data_length = length body;
  pub_key = some self.public;
  resource_name = path;
  log = true;
  clock = now;
}

module _ (g : Codecs) (self : PrivateKey) (client : Identifier) where
  abbrev pub place_request : Identifier → Request
  place_request key = record {
    header = log_header user_type client zero_identifier (some self.public);
    method = get_successor_method;
    body = g.encode_id key;
  }

  abbrev pub post_request : String → Bytes → ℕ → Request
  post_request path body now = record {
    header = post_header g client self path body now;
    method = post_file_method;
    body = body;
  }

pub data Event : Type 0 where
  polled : List String → Event
  written removed : String → Event

abbrev pub read_file : {W : Type 0} → Machine W → String → Act W Bytes
read_file disk path w = (ok (or_nil (disk.read_file path w)), w)

abbrev pub clock_now : {W : Type 0} → Machine W → Act W ℕ
clock_now disk w = (ok (disk.clock w), w)

-- `local_path` is `filepath.Join(localPath, path)`.
module _ {W : Type 0} (net : Net W) (disk : Machine W) (g : Codecs) (local_path : String → String)
    (self : PrivateKey) (client : Identifier) where
  abbrev saved : String → Bytes → Act W (Unit {0})
  saved dest body w =
      let (fine, w') = disk.write_file dest body (disk.make_dir dest w) in
      (if fine then ok tt else err (cause "write"), w')

  -- What is written is the data of the response as they came.
  unfoldable pub get_file : String → Node → Act W (Unit {0})
  get_file path peer =
      let key = file_to_key_identifier g path in
      ignore_error tt (
        open_transport net peer.addr user_type client peer.public_key self >>= λ st.
        net.trip st (successor_request g key client) >>= λ found.
        lift (decoded_node (g.decode_node found.body)) >>= λ node.
        open_transport net node.addr user_type client node.public_key self >>= λ t.
        net.trip t (get_request key client) >>= λ resp. lift (not_refused resp) >>= λ _.
        tick disk resp.header.clock >>= λ _. saved (local_path path) resp.body)

  -- The log with one more entry is stored. A log that cannot be read counts as empty.
  abbrev pub log_change : Operation → String → Node → Act W (Unit {0})
  log_change op path peer =
      ignore_error [] (get_transaction_log net g client peer self.public self) >>= λ tl.
      clock_now disk >>= λ time. ignore_error tt (
        put_transaction_log net g disk client peer self.public self
          (record_entry op client time path (file_to_key_identifier g path) tl))

  -- The node that is written to is the value of the variable, whether or not it could be found.
  unfoldable pub post_file : String → Node → Act W (Unit {0})
  post_file path peer =
      let key = file_to_key_identifier g path in
      read_file disk (local_path path) >>= λ body.
      open_transport net peer.addr user_type client peer.public_key self >>= λ st.
      ignore_error zero_response (net.trip st (place_request g self client key)) >>= λ found.
      let node = (g.decode_node found.body).0 in
      open_transport net node.addr user_type client node.public_key self >>= λ t.
      clock_now disk >>= λ now.
      ignore_error zero_response (net.trip t (post_request g self client path body now)) >>= λ resp.
      tick disk resp.header.clock >>= λ _. log_change update path node

  -- No request to delete the file is sent.
  unfoldable pub delete_file : String → Node → Act W (Unit {0})
  delete_file path peer = log_change delete path peer

  -- The walk: the paths of the local files, less the prefix `localPath`
  abbrev not_logged : Node → String → Option Entity → Act W (Unit {0})
  not_logged peer path none = post_file path peer
  not_logged peer path (some v) = pure tt

  unfoldable pub walk : Node → TransactionLog → List String → Act W (Unit {0})
  walk peer tl [] = pure tt
  walk peer tl (path ∷ paths) = not_logged peer path (lookup path tl) >>= λ _. walk peer tl paths

  abbrev remove_own : String → Act W (Unit {0})
  remove_own path w = (ok tt, disk.remove_file (local_path path) w)

  abbrev perform : Node → String → Option Action → Act W (Unit {0})
  perform peer path none = lift panic
  perform peer path (some fetch) = get_file path peer
  perform peer path (some remove_local) = remove_own path
  perform peer path (some keep) = pure tt
  perform peer path (some delete_again) = delete_file path peer
  perform peer path (some post_again) = post_file path peer

  -- The loop over the log, in the order of the list
  unfoldable pub resources : Node → TransactionLog → List (String × Entity) → Act W (Unit {0})
  resources peer old [] = pure tt
  resources peer old ((path, v) ∷ rest) =
      perform peer path (sync_action v (lookup path old)) >>= λ _. resources peer old rest

  unfoldable pub synchronize : List String → Node → TransactionLog → Act W TransactionLog
  synchronize paths peer old =
      ignore_error [] (get_transaction_log net g client peer self.public self) >>= λ tl.
      walk peer tl paths >>= λ _. resources peer old tl >>= λ _. pure tl

  -- The loop of the operation `sync`: the poll interval, and what the watcher of the file system tells. The paths
  -- are less the prefix `localPath`. An interrupt ends it.
  abbrev pub on_event : Node → TransactionLog → Event → Act W TransactionLog
  on_event peer tl (polled paths) = synchronize paths peer tl
  on_event peer tl (written path) = post_file path peer >>= λ _. pure tl
  on_event peer tl (removed path) = delete_file path peer >>= λ _. pure tl

  unfoldable pub on_events : Node → TransactionLog → List Event → Act W TransactionLog
  on_events peer tl [] = pure tl
  on_events peer tl (e ∷ es) = on_event peer tl e >>= λ newer. on_events peer newer es

  -- The operation: a first synchronization with an empty log, then the loop
  unfoldable pub sync : List String → Node → List Event → Act W TransactionLog
  sync paths peer events = synchronize paths peer [] >>= λ tl. on_events peer tl events
