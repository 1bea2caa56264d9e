-- ===== src/Startup/Host/Forged.antt =====
-- Messages to a running server whose caller type is none of the program's.
use peerstore.Base.{◌≡◌, ◌≢◌, refl, ap, ◌∙◌, nat_eq, bytes_eq, some, none, List, [], ◌∷◌, Bytes}
use peerstore.Base.Dict.{lookup, insert, erase, lookup-erase_self}
use peerstore.Base.Result.{ok}
use peerstore.Models.Clock.{increment_clock}
use peerstore.Crypto.Pem.{Codec}
use peerstore.Protocol.Message.{
  Request, Response, EncryptedMessage, error_response, user_type, node_type, get_file_method,
  delete_file_method,
}
use peerstore.Protocol.Envelope.{Suite, Entropy}
use peerstore.Protocol.Connection.{Lookups, next, reply, handle_request}
use peerstore.Protocol.Connection.Access.{other_callers_run}
use peerstore.File.Storage.{no_faults, get, delete}
use peerstore.File.Owners.{IdSecret, read_owners, secret_of}
use peerstore.File.Handlers.{respond, answer, get_file_handler, delete_file_handler}
use peerstore.File.Handlers.Access.{get_file-served}
use peerstore.Startup.{get_file, delete_file, routes}
use peerstore.Startup.Host.{Host, Environment, on_files, run, handlers}

module _ {W : Type 0} (env : Environment W) (c : Suite) (codec : Codec) (out : Lookups)
    (em : EncryptedMessage) (r : Request) (raw : Bytes) (e e' : Entropy) (w : Host W)
    (content : Bytes) (owners : List IdSecret) (body secret : Bytes) where
  get_file-run :
      env.faults ≡ no_faults
      → lookup r.header.key w.files.disk ≡ some content
      → read_owners content ≡ some (owners, body)
      → secret_of r.header.from owners ≡ some secret
      → run env get_file em.header.pub_key r w ≡ ok (w, answer 0 secret body)
  unfolding run
  get_file-run f stored parsed named =
      let shown : get_file_handler env.faults r w.files
          ≡ (respond (answer 0 secret body), w.files) =
        rw f
          (get_file-served no_faults r w.files content owners body refl stored parsed ∙ rw named) in
      ap (on_files w) shown

  abbrev erased : Host W
  erased = record w {
    files = record {
      disk = erase r.header.key w.files.disk;
      clock = increment_clock w.files.clock r.header.clock;
    };
  }

  abbrev erased_response : Response
  erased_response = answer (increment_clock w.files.clock r.header.clock) secret []

  delete_file-run :
      env.faults ≡ no_faults
      → lookup r.header.key w.files.disk ≡ some content
      → read_owners content ≡ some (owners, body)
      → secret_of r.header.from owners ≡ some secret
      → run env delete_file em.header.pub_key r w ≡ ok (erased, erased_response)
  unfolding run delete_file_handler get delete
  delete_file-run f stored parsed named = rw (f, stored, parsed, named, stored)

  get_file-routed : lookup get_file_method routes ≡ some get_file
  unfolding routes lookup insert
  get_file-routed = refl

  delete_file-routed : lookup delete_file_method routes ≡ some delete_file
  unfolding routes lookup insert
  delete_file-routed = refl

  -- Anyone who has the server's public key reads any file in the name of one of its owners, with no signature: a
  -- message whose caller type names neither a user nor a node, and whose request to get names the file and the owner,
  -- is answered, after an error reply, with the file's data and the owner's secret, encrypted for the sender's key, if
  -- both replies can be encrypted and the disk does not fail.
  pub forged_get :
      (first second : Bytes)
      → em.header.caller ≢ user_type
      → em.header.caller ≢ node_type
      → r.method ≡ get_file_method
      → env.faults ≡ no_faults
      → lookup r.header.key w.files.disk ≡ some content
      → read_owners content ≡ some (owners, body)
      → secret_of r.header.from owners ≡ some secret
      → reply c codec out w.server em e error_response ≡ ok first
      → reply c codec out w.server em e' (answer 0 secret body) ≡ ok second
      → handle_request c codec out w.server em e e' (handlers env) r raw w
        ≡ next w (first ∷ second ∷ [])
  forged_get first second user node method f stored parsed named one two =
      other_callers_run c codec out w.server em r raw e e' (handlers env) (run env get_file) w w
        (answer 0 secret body) first second user node (rw (method, get_file-routed))
        (get_file-run f stored parsed named) one two

  -- Anyone who has the server's public key deletes any file in the name of one of its owners, with no signature: a
  -- message whose caller type names neither a user nor a node, and whose request to delete names the file and the
  -- owner, erases the file, if the disk does not fail and both replies, an error and the owner's, can be encrypted.
  pub forged_delete :
      (first second : Bytes)
      → em.header.caller ≢ user_type
      → em.header.caller ≢ node_type
      → r.method ≡ delete_file_method
      → env.faults ≡ no_faults
      → lookup r.header.key w.files.disk ≡ some content
      → read_owners content ≡ some (owners, body)
      → secret_of r.header.from owners ≡ some secret
      → reply c codec out w.server em e error_response ≡ ok first
      → reply c codec out w.server em e' erased_response ≡ ok second
      → (handle_request c codec out w.server em e e' (handlers env) r raw w
          ≡ next erased (first ∷ second ∷ []))
        × (lookup r.header.key erased.files.disk ≡ none)
  forged_delete first second user node method f stored parsed named one two = (
    other_callers_run c codec out w.server em r raw e e' (handlers env) (run env delete_file) w
        erased erased_response first second user node (rw (method, delete_file-routed))
        (delete_file-run f stored parsed named) one two,
    lookup-erase_self r.header.key w.files.disk,
  )
