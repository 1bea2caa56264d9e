-- ===== src/Client/Log.antt =====
-- `GetTransactionLog` and `PutTransactionLog` of cmd/peerstore/client/main.go and of file/transactionlog.go. The
-- two programs differ in the caller type, in the header of a request, and in the connection and the clock of a post.
use peerstore.Base.{
  ℕ, Bool, true, false, Option, none, some, [], Bytes, length, ◌==◌, nat_eq, if◌then◌else◌,
}
use peerstore.Base.Result.{wrap, cause, Result, ok, err, panic}
use peerstore.Base.Act.{Act, ◌>>=◌, pure, lift, wrap_step}
use peerstore.Models.Node.{Identifier, PublicKey, PrivateKey, Node}
use peerstore.Models.TransactionLog.{TransactionLog}
use peerstore.Protocol.Message.{
  Header, zero_header, Request, Response, zero_response, user_type, node_type, error,
}
use peerstore.Protocol.Message.{get_successor_method, get_file_method, post_file_method}
use peerstore.Protocol.Transport.{Transport}
use peerstore.Client.Requests.{Net, Machine, Codecs, log_id, open_transport, tick}

abbrev pub log_header : ℕ → Identifier → Identifier → Option PublicKey → Header
log_header caller from key pub_key = record zero_header {
  caller = caller;
  from = from;
  key = key;
  pub_key = pub_key;
}

abbrev pub decoded_node : Node × Bool → Result Node
decoded_node (n, true) = ok n
decoded_node (n, false) = err (wrap "failed deserialize successor: " (cause "gob"))

abbrev decoded_log : Option TransactionLog → Result TransactionLog
decoded_log none = err (wrap "failed deserialize transaction log: " (cause "gob"))
decoded_log (some tl) = ok tl

-- `errors.Wrap` of the nil error is nil, so a refusal is an empty log with no error.
abbrev pub log_of : Codecs → Response → Result TransactionLog
log_of g resp = if resp.status == error then ok [] else decoded_log (g.decode_log resp.body)

abbrev encoded_log : Option Bytes → Result Bytes
encoded_log none = err (wrap "failed serialize transaction log: " (cause "gob"))
encoded_log (some b) = ok b

-- The clock of the response counts whether or not there was an error, which leaves `Response{}`.
abbrev pub after_post : {W : Type 0} → Machine W → Result Response × W → Result (Unit {0}) × W
after_post disk (ok resp, w) = tick disk resp.header.clock w
after_post disk (err e, w) =
    let (r, w') = tick disk zero_response.header.clock w in
    (err (wrap "failed serialize transaction log: " e), w')
after_post disk (panic, w) = (panic, w)

abbrev pub log_post : ℕ → Identifier → Identifier → PrivateKey → Bytes → Request
log_post caller this_id id self body = record {
  header = record (log_header caller this_id id (some self.public)) { data_length = length body };
  method = post_file_method;
  body = body;
}

abbrev pub reached : Transport → Result Transport
reached t = elim t.conn [
  | none ↦ err (wrap "failed serialize transaction log: " (cause "dial"))
  | some addr ↦ ok t
]

module _ {W : Type 0} (net : Net W) (g : Codecs) where
  abbrev log_place : ℕ → Identifier → Identifier → Transport → Act W Node
  log_place caller from id t =
      wrap_step "failed to get successor: " (
        net.trip t (record {
          header = log_header caller from id none;
          method = get_successor_method;
          body = g.encode_id id;
        }))
      >>= λ resp. lift (decoded_node (g.decode_node resp.body))

  -- The node that has the log is found, but the file is asked of `peer`, encrypted for that node's key.
  abbrev get_log :
      ℕ → Option PublicKey → Identifier → Node → PublicKey → PrivateKey → Act W TransactionLog
  get_log caller sent_key this_id peer user_key self =
      let id = log_id g user_key in
      open_transport net peer.addr caller id peer.public_key self >>= λ t.
      log_place caller this_id id t >>= λ node.
      open_transport net peer.addr caller this_id node.public_key self >>= λ st.
      wrap_step "failed to get file" (
        net.trip st (record {
          header = log_header caller this_id id sent_key;
          method = get_file_method;
          body = [];
        }))
      >>= λ resp. lift (log_of g resp)

  -- The client's, and the node's of file/transactionlog.go
  unfoldable pub get_transaction_log :
      Identifier → Node → PublicKey → PrivateKey → Act W TransactionLog
  get_transaction_log this_id peer user_key self =
      get_log user_type (some self.public) this_id peer user_key self

  unfoldable pub node_get_transaction_log :
      Identifier → Node → PublicKey → PrivateKey → Act W TransactionLog
  node_get_transaction_log = get_log node_type none

  -- The status of the response is not looked at. The request carries no secret.
  unfoldable pub put_transaction_log :
      Machine W → Identifier → Node → PublicKey → PrivateKey → TransactionLog → Act W (Unit {0})
  put_transaction_log disk this_id peer user_key self tl =
      let id = log_id g user_key in
      open_transport net peer.addr user_type id peer.public_key self >>= λ t.
      log_place user_type this_id id t >>= λ node. lift (encoded_log (g.encode_log tl)) >>= λ body.
      open_transport net node.addr user_type id node.public_key self >>= λ opened.
      lift (reached opened) >>= λ st.
      λ w. after_post disk (net.trip st (log_post user_type this_id id self body) w)

  -- The post goes over the first connection, to `peer`, and not over the one to the node of the log.
  unfoldable pub node_put_transaction_log :
      Identifier → Node → PublicKey → PrivateKey → TransactionLog → Act W (Unit {0})
  node_put_transaction_log this_id peer user_key self tl =
      let id = log_id g user_key in
      open_transport net peer.addr node_type id peer.public_key self >>= λ t.
      log_place node_type this_id id t >>= λ node. lift (encoded_log (g.encode_log tl)) >>= λ body.
      open_transport net node.addr node_type id node.public_key self >>= λ opened.
      lift (reached opened) >>= λ st.
      wrap_step "failed serialize transaction log: "
        (net.trip t (log_post node_type this_id id self body))
      >>= λ _. pure tt
