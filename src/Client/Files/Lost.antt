-- ===== src/Client/Files/Lost.antt =====
-- A transaction log that a client stores: `PutTransactionLog` sends no secret, and the owner header has a place of
-- 256 bytes for one.
use peerstore.Base.{
  ◌<◌, ◌≡◌, refl, ap, bytes_eq, none, some, Bytes, [], ◌++◌, append-nil, length, true, nat_eq,
  arith,
}
use peerstore.Base.Dict.{lookup, insert, erase, lookup-insert_self}
use peerstore.Base.Result.{Result, ok}
use peerstore.Models.Node.{Identifier, PrivateKey, Node}
use peerstore.Models.Clock.{increment_clock}
use peerstore.Models.TransactionLog.{TransactionLog}
use peerstore.Protocol.Message.{Request, Response, user_type}
use peerstore.Protocol.Transport.{new_transport}
use peerstore.File.Storage.{no_faults, get}
use peerstore.File.Owners.{new_header, shared_bytes, read, read_owners, read_pairs}
use peerstore.File.Owners.RoundTrip.{read-append}
use peerstore.File.Handlers.{Files, respond, refused, answer, get_file_handler, post_file_handler}
use peerstore.File.Handlers.Access.{post_file-new}
use peerstore.Client.Requests.{Net, Codecs, log_id, open_transport}
use peerstore.Client.Log.{log_post, get_transaction_log, put_transaction_log}
use peerstore.Client.Direct.{Site, at_node, direct, own_machine}

-- A header without a secret, and less than a secret's length behind it
read_owners-short :
    (from : Identifier) (body : Bytes)
    → length from ≡ 20
    → length body < 256
    → read_owners (new_header from [] [] ++ body) ≡ none
unfolding new_header shared_bytes read_owners read_pairs read
read_owners-short from body i l = rw (append-nil from, read-append 20 from body i) (ground arith)

module _ (encode_node : Node → Bytes) (node : Node) (g : Codecs) (self : PrivateKey)
    (client : Identifier) (peer : Node)
    (node_back : g.decode_node (encode_node node) ≡ (node, true)) where
  abbrev net : Net Site
  net = direct encode_node node

  abbrev id : Identifier
  id = log_id g self.public

  put_transaction_log-post :
      (tl : TransactionLog) (body : Bytes) (s : Site) (resp : Response) (files : Files)
      → g.encode_log tl ≡ some body
      → post_file_handler no_faults (log_post user_type client id self body) s.files
        ≡ (respond resp, files)
      → put_transaction_log net g own_machine client peer self.public self tl s ≡ (
        ok tt,
        record s { files = files; own_clock = increment_clock s.own_clock resp.header.clock },
      )
  unfolding put_transaction_log at_node open_transport new_transport
  put_transaction_log-post tl body s resp files e p = rw (node_back, e, p)

  get_transaction_log-refused :
      (s : Site)
      → (content : Bytes) → lookup id s.files.disk ≡ some content
      → read_owners content ≡ none
      → get_transaction_log net g client peer self.public self s ≡ (ok [], s)
  unfolding get_transaction_log at_node open_transport new_transport get_file_handler get
  get_transaction_log-refused s content h p = rw (node_back, h, p)

  post_file-unparsed :
      (r : Request) (files : Files) (content : Bytes)
      → lookup r.header.key files.disk ≡ some content
      → read_owners content ≡ none
      → post_file_handler no_faults r files
        ≡ (refused, record files { clock = increment_clock files.clock r.header.clock })
  unfolding post_file_handler get
  post_file-unparsed r files content h p = rw (h, p)

  -- Against one node that names itself and has no transaction log: a client with an identifier of
  -- 20 bytes stores a log that is encoded in less than 256 bytes. `PutTransactionLog` succeeds,
  -- then `GetTransactionLog` yields the empty log and no error. Storing a further log that can be
  -- encoded succeeds as well, and leaves what the node has of the log as it was.
  pub short_log_lost :
      (tl newer : TransactionLog) (body more : Bytes) (s : Site)
      → lookup id s.files.disk ≡ none
      → length client ≡ 20
      → g.encode_log tl ≡ some body
      → length body < 256
      → g.encode_log newer ≡ some more
      → let stored = (put_transaction_log net g own_machine client peer self.public self tl s).1 in
        ((put_transaction_log net g own_machine client peer self.public self tl s).0 ≡ ok tt)
        × (get_transaction_log net g client peer self.public self stored ≡ (ok [], stored))
        × ((put_transaction_log net g own_machine client peer self.public self newer stored).0
            ≡ ok tt)
        × (lookup id
              (put_transaction_log net g own_machine client peer self.public self newer
                stored).1.files.disk
            ≡ lookup id stored.files.disk)
  short_log_lost tl newer body more s absent size e short f =
      let r = log_post user_type client id self body in
      let content = new_header client [] [] ++ body in
      let clock = increment_clock s.files.clock 0 in
      let files : Files = record {
        disk = insert id content (erase id s.files.disk);
        clock = clock;
      } in
      let after : Site = record s {
        files = files;
        own_clock = increment_clock s.own_clock clock;
      } in
      let first : put_transaction_log net g own_machine client peer self.public self tl s
          ≡ (ok tt, after) =
        put_transaction_log-post tl body s (answer clock [] []) files e
          (post_file-new r s.files absent) in
      let there : lookup id files.disk ≡ some content =
        lookup-insert_self id content (erase id s.files.disk) in
      let unparsed = read_owners-short client body size short in
      let second = put_transaction_log-post newer more after _ _ f (
        post_file-unparsed (log_post user_type client id self more) files content there unparsed) in
      rw first (
        refl,
        get_transaction_log-refused after content there unparsed,
        ap (λ (x : Result (Unit {0}) × Site). x.0) second,
        ap (λ (x : Result (Unit {0}) × Site). lookup id x.1.files.disk) second,
      )
