-- ===== src/Client/Files/Frame.antt =====
-- The client's operations on the log: files of the node and of the client's machine that are not theirs.
use peerstore.Base.{◌≡◌, ◌≢◌, refl, sym, ◌∙◌, String, string_eq, bytes_eq, Option, Bytes, nat_eq}
use peerstore.Base.Dict.{Dict, lookup}
use peerstore.Base.Act.{lift, ignore_error}
use peerstore.Models.Node.{Identifier, PublicKey, PrivateKey, Node}
use peerstore.Models.TransactionLog.{Operation, update, delete, TransactionLog}
use peerstore.Protocol.Message.{zero_response, user_type}
use peerstore.File.Storage.{no_faults}
use peerstore.File.Handlers.Frame.{other_files_kept}
use peerstore.Client.Requests.{Net, Codecs, file_to_key_identifier, log_id, open_transport, tick}
use peerstore.Client.Log.{get_transaction_log, put_transaction_log, log_post, reached}
use peerstore.Client.Files.{
  post_file, delete_file, log_change, read_file, clock_now, place_request, post_request,
}
use peerstore.Client.Sync.{record_entry}
use peerstore.Client.Direct.{Site, direct, own_machine}
use peerstore.Client.Files.Leaves.{
  Leaves, BlindTo, leaves, bind-Leaves, ignore_error-Leaves, wrap_step-Leaves,
  open_transport-Leaves, asking, reading, posting, after_post-Leaves,
}

module _ (encode_node : Node → Bytes) (node : Node) (g : Codecs) (self : PrivateKey)
    (client : Identifier) {B : Type 0} (view : Site → B) where
  abbrev own_net : Net Site
  own_net = direct encode_node node

  get_transaction_log-Leaves :
      (peer : Node) (k : PublicKey) → Leaves view (get_transaction_log own_net g client peer k self)
  unfolding get_transaction_log
  get_transaction_log-Leaves peer k =
      bind-Leaves view _ _ (open_transport-Leaves encode_node node view _ _ _ _ _) λ t.
        bind-Leaves view _ _
          (bind-Leaves view _ _ (wrap_step-Leaves view _ _ (asking encode_node node view _ refl t))
            λ r. leaves view _ λ s. refl)
          λ n. bind-Leaves view _ _ (open_transport-Leaves encode_node node view _ _ _ _ _) λ st.
            bind-Leaves view _ _
              (wrap_step-Leaves view _ _ (reading encode_node node view _ refl st))
              λ r. leaves view _ λ s. refl

  put_transaction_log-Leaves :
      (peer : Node) (k : PublicKey) (tl : TransactionLog)
      → BlindTo view (log_id g k)
      → Leaves view (put_transaction_log own_net g own_machine client peer k self tl)
  unfolding put_transaction_log
  put_transaction_log-Leaves peer k tl b =
      bind-Leaves view _ _ (open_transport-Leaves encode_node node view _ _ _ _ _) λ t.
        bind-Leaves view _ _
          (bind-Leaves view _ _ (wrap_step-Leaves view _ _ (asking encode_node node view _ refl t))
            λ r. leaves view _ λ s. refl)
          λ n. bind-Leaves view _ _ (leaves view _ λ s. refl) λ body.
            bind-Leaves view _ _ (open_transport-Leaves encode_node node view _ _ _ _ _) λ opened.
              bind-Leaves view (lift (reached opened)) _ (leaves view _ λ s. refl) λ st.
                leaves view _ λ s.
                  let r = log_post user_type client (log_id g k) self body in
                  after_post-Leaves encode_node node view (log_id g k) (own_net.trip st r s) b
                  ∙ (posting encode_node node view r (log_id g k) b refl refl st).at s

  log_change-Leaves :
      (local_path : String → String) (op : Operation) (path : String) (peer : Node)
      → BlindTo view (log_id g self.public)
      → Leaves view (log_change own_net own_machine g local_path self client op path peer)
  log_change-Leaves local_path op path peer b =
      bind-Leaves view _ _
        (ignore_error-Leaves view _ _ (get_transaction_log-Leaves peer self.public))
        λ tl. bind-Leaves view (clock_now own_machine) _ (leaves view _ λ s. refl) λ time.
          ignore_error-Leaves view _ _ (
            put_transaction_log-Leaves peer self.public
              (record_entry op client time path (file_to_key_identifier g path) tl) b)

  post_file-Leaves :
      (local_path : String → String) (path : String) (peer : Node)
      → BlindTo view (file_to_key_identifier g path)
      → BlindTo view (log_id g self.public)
      → Leaves view (post_file own_net own_machine g local_path self client path peer)
  unfolding post_file
  post_file-Leaves local_path path peer b l =
      let key = file_to_key_identifier g path in
      bind-Leaves view (read_file own_machine (local_path path)) _ (leaves view _ λ s. refl) λ body.
        bind-Leaves view (open_transport own_net peer.addr user_type client peer.public_key self) _
          (open_transport-Leaves encode_node node view peer.addr user_type client peer.public_key
            self)
          λ st.
            bind-Leaves view
              (ignore_error zero_response (own_net.trip st (place_request g self client key))) _
              (ignore_error-Leaves view zero_response _
                (asking encode_node node view (place_request g self client key) refl st))
              λ found.
                let at = (g.decode_node found.body).0 in
                bind-Leaves view
                  (open_transport own_net at.addr user_type client at.public_key self) _
                  (open_transport-Leaves encode_node node view at.addr user_type client
                    at.public_key self)
                  λ t. bind-Leaves view (clock_now own_machine) _ (leaves view _ λ s. refl) λ now.
                    let r = post_request g self client path body now in
                    bind-Leaves view (ignore_error zero_response (own_net.trip t r)) _
                      (ignore_error-Leaves view zero_response _
                        (posting encode_node node view r key b refl refl t))
                      λ resp.
                        bind-Leaves view (tick own_machine resp.header.clock) _
                          (leaves view _ λ s. b.0 _ s)
                          λ _. log_change-Leaves local_path update path at l

-- The file of another key on the node's disk
abbrev file_at : Identifier → Site → Option Bytes
file_at key s = lookup key s.files.disk

file_at-BlindTo : (key other : Identifier) → other ≢ key → BlindTo (file_at key) other
file_at-BlindTo key other n =
    (λ m s. refl, λ r s e. (other_files_kept no_faults r key (λ h. n (sym e ∙ h)) s.files).0)

abbrev own_files_of : Site → Dict String Bytes
own_files_of s = s.own_files

own_files-BlindTo : (other : Identifier) → BlindTo own_files_of other
own_files-BlindTo other = (λ m s. refl, λ r s e. refl)

module _ (encode_node : Node → Bytes) (node : Node) (g : Codecs) (local_path : String → String)
    (self : PrivateKey) (client : Identifier) where
  -- Against one node that holds every file: `DeleteFile` of a path leaves every file on the node as it was, but that
  -- of the user's transaction log, and all files of the client's machine. In particular it leaves the file of the
  -- path, if that is not the log.
  pub delete_file_keeps :
      (path : String) (peer : Node) (key : Identifier) (s : Site)
      → log_id g self.public ≢ key
      → let net = direct encode_node node in
        let after = (delete_file net own_machine g local_path self client path peer s).1 in
        (lookup key after.files.disk ≡ lookup key s.files.disk) × (after.own_files ≡ s.own_files)
  unfolding delete_file
  delete_file_keeps path peer key s n = (
    (log_change-Leaves encode_node node g self client (file_at key) local_path delete path peer
          (file_at-BlindTo key (log_id g self.public) n)).at
        s,
    (log_change-Leaves encode_node node g self client own_files_of local_path delete path peer
          (own_files-BlindTo (log_id g self.public))).at
        s,
  )

  -- Against one node that holds every file: `PostFile` of a path leaves every file on the node as it was, but that of
  -- the path and that of the user's transaction log, and all files of the client's machine.
  pub post_file_keeps :
      (path : String) (peer : Node) (key : Identifier) (s : Site)
      → log_id g self.public ≢ key
      → file_to_key_identifier g path ≢ key
      → let net = direct encode_node node in
        let after = (post_file net own_machine g local_path self client path peer s).1 in
        (lookup key after.files.disk ≡ lookup key s.files.disk) × (after.own_files ≡ s.own_files)
  post_file_keeps path peer key s n m = (
    (post_file-Leaves encode_node node g self client (file_at key) local_path path peer
          (file_at-BlindTo key (file_to_key_identifier g path) m)
          (file_at-BlindTo key (log_id g self.public) n)).at
        s,
    (post_file-Leaves encode_node node g self client own_files_of local_path path peer
          (own_files-BlindTo (file_to_key_identifier g path))
          (own_files-BlindTo (log_id g self.public))).at
        s,
  )
