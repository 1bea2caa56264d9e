-- ===== src/Startup/Host/Guarded.antt =====
-- The files of a running server.
use peerstore.Base.{
  ℕ, ◌≡◌, ◌≢◌, refl, ◌∙◌, ap, arith, ◌==◌, nat_eq, bytes_eq, bytes_beq_iff, Bool-cases, inl, inr,
  false, some, List, Bytes,
}
use peerstore.Base.Dict.{lookup, insert}
use peerstore.Base.Result.{Result}
use peerstore.Models.Node.{Identifier, PrivateKey}
use peerstore.Crypto.Rsa.{Rsa}
use peerstore.Crypto.Pem.{Codec}
use peerstore.Protocol.Message.{Request, Response, post_public_key_method}
use peerstore.Protocol.Envelope.{Suite}
use peerstore.Protocol.Server as ServerModule
use peerstore.Protocol.Server.{
  Server, add_trusted_node, node_registration_handler, node_trust_handler, registration_reply,
}
use peerstore.Protocol.Connection.Rounds.Guarded.{}
use peerstore.Chord.LocalNode.{LocalNode}
use peerstore.Chord.Handlers.{set_predecessor_handler}
use peerstore.File.Owners.{IdSecret, read_owners}
use peerstore.File.Owners.Holds.{Owns}
use peerstore.File.Handlers.{
  Files, Outcome, get_file_handler, post_file_handler, delete_file_handler,
}
use peerstore.File.Handlers.{get_public_key_handler, post_public_key_handler}
use peerstore.File.Handlers.Access.{stranger_refused}
use peerstore.File.Handlers.Frame.{other_files_kept}
use peerstore.Startup.{
  get_file, post_file, get_public_key, post_public_key, delete_file, successor, set_predecessor,
  get_predecessor, finger_table, user_registration, node_registration, node_trust, routes,
}
use peerstore.Startup.Host.Leaves.{
  on_files-Leaves, on_ring-Leaves, on_others-Leaves, on_calls-Leaves, Leaves, RoutesKeep,
  handlers-KeepsAdmitted,
}
use peerstore.Startup.Host.Events.{Happening, Lives, AllCarry, goes_on, goes_on-Lives}
use peerstore.Startup.Host.{Host, Environment, on_files, on_server, run}

-- A request that names another file, or comes in the name of a user who is not among these owners and posts no
-- public key
abbrev pub Harmless : Identifier → List IdSecret → Request → Type 0
Harmless key owners r =
    r.header.key ≡ key → (r.method ≢ post_public_key_method) × (Owns r.header.from owners → ⊥)

routed-post_public_key :
    (m : ℕ) → lookup m routes ≡ some post_public_key → m ≡ post_public_key_method
unfolding routes lookup insert
routed-post_public_key m h = ground (arith, nat_eq.beq_iff post_public_key_method m)

-- The host keeps the private key, and this file as it is.
pub record Keeps {W : Type 0} (self : PrivateKey) (key : Identifier) (content : Bytes) (w : Host W)
    : Type 0 where
  pub same_key : w.server.private_key ≡ self
  pub same_file : lookup key w.files.disk ≡ some content

module _ {W : Type 0} (self : PrivateKey) (key : Identifier) (content : Bytes) (w : Host W)
    (h : Keeps self key content w) where
  abbrev Left : Result (Host W × Response) → Type 0
  Left = Leaves (Keeps self key content)

  on_files-Left :
      (x : Outcome × Files) → lookup key x.1.disk ≡ lookup key w.files.disk → Left (on_files w x)
  on_files-Left x e =
      on_files-Leaves (Keeps self key content) w x
        (record { same_key = h.same_key; same_file = e ∙ h.same_file })

  node_handlers-Left :
      (c : Rsa) (gob : ServerModule.Gob) (r : Request)
      → Left (on_server w (node_registration_handler c gob w.server r))
        × Left (on_server w (node_trust_handler c gob w.server r))
  unfolding node_registration_handler node_trust_handler add_trusted_node registration_reply
  node_handlers-Left c gob r = (ground arith, ground arith)

  -- The ring and the other nodes have no part in the files.
  elsewhere :
      (ln : LocalNode) (others : W)
      → Keeps self key content (record w { ring = ln; others = others })
  elsewhere ln others = record { same_key = h.same_key; same_file = h.same_file }

-- A request that is harmless to the file leaves it, whichever route handles it.
module _ {W : Type 0} (env : Environment W) (self : PrivateKey) (key : Identifier) (content : Bytes)
    (owners : List IdSecret) (body : Bytes) (opens : env.faults.open_found ≡ false)
    (parsed : read_owners content ≡ some (owners, body)) where
  SameFiles : Request → Files → Type 0
  SameFiles r s =
      (lookup key (post_file_handler env.faults r s).1.disk ≡ lookup key s.disk)
      × (lookup key (delete_file_handler env.faults r s).1.disk ≡ lookup key s.disk)

  Harmless-SameFiles :
      (r : Request) (s : Files)
      → Harmless key owners r
      → lookup key s.disk ≡ some content
      → SameFiles r s
  unfolding SameFiles
  Harmless-SameFiles r s harmless stored = elim (Bool-cases (r.header.key == key)) [
    | inl e ↦
        let same = (bytes_beq_iff r.header.key key).0 e in
        let (_, _, posts, _, deletes) =
          stranger_refused env.faults r s content owners body opens (rw same stored) parsed
            (harmless same).1 in
        (ap (lookup key) posts, ap (lookup key) deletes)
    | inr e ↦
        let apart : r.header.key ≢ key = λ k. cc (e, (bytes_beq_iff r.header.key key).1 k) in
        let (posts, _, deletes) = other_files_kept env.faults r key apart s in (posts, deletes)
  ]

  post_public_key-kept :
      (r : Request) (s : Files)
      → Harmless key owners r
      → r.method ≡ post_public_key_method
      → lookup key (post_public_key_handler env.faults r s).1.disk ≡ lookup key s.disk
  post_public_key-kept r s harmless posts =
      (other_files_kept env.faults r key (λ same. (harmless same).0 posts) s).1

  run-RoutesKeep : RoutesKeep env (Harmless key owners) (Keeps self key content)
  unfolding run SameFiles get_file_handler get_public_key_handler
  run-RoutesKeep context r w get_file harmless routed h = on_files-Left self key content w h _ refl
  run-RoutesKeep context r w post_file harmless routed h =
      on_files-Left self key content w h _ (Harmless-SameFiles r w.files harmless h.same_file).0
  run-RoutesKeep context r w get_public_key harmless routed h =
      on_files-Left self key content w h _ refl
  run-RoutesKeep context r w post_public_key harmless routed h =
      on_files-Left self key content w h _
        (post_public_key-kept r w.files harmless (routed-post_public_key r.method routed))
  run-RoutesKeep context r w delete_file harmless routed h =
      on_files-Left self key content w h _ (Harmless-SameFiles r w.files harmless h.same_file).1
  run-RoutesKeep context r w successor harmless routed h =
      on_others-Leaves (Keeps self key content) w _ (elsewhere self key content w h w.ring _)
  run-RoutesKeep context r w set_predecessor harmless routed h =
      on_ring-Leaves (Keeps self key content) w (set_predecessor_handler env.ring_gob w.ring r)
        (elsewhere self key content w h _ w.others)
  run-RoutesKeep context r w get_predecessor harmless routed h = h
  run-RoutesKeep context r w finger_table harmless routed h = h
  run-RoutesKeep context r w user_registration harmless routed h =
      on_calls-Leaves (Keeps self key content) w _ (elsewhere self key content w h w.ring _)
  run-RoutesKeep context r w node_registration harmless routed h =
      (node_handlers-Left self key content w h env.rsa env.server_gob r).0
  run-RoutesKeep context r w node_trust harmless routed h =
      (node_handlers-Left self key content w h env.rsa env.server_gob r).1

  -- However messages on any connections and the timers follow one another, a server that can open its files and has
  -- not ended keeps a file as it is, whichever routes are asked for and whatever fails, as long as every message is
  -- harmless to the file: it names another file, or comes in the name of a user whom the file's header does not name
  -- and posts no public key.
  pub goes_on-Keeps :
      (c : Suite) (codec : Codec) (xs : List Happening) (w : Host W)
      → AllCarry c self (Harmless key owners) xs
      → Keeps self key content w
      → Lives (Keeps self key content) (goes_on env c codec xs w)
  goes_on-Keeps c codec xs w harmless h =
      goes_on-Lives env c codec self (Harmless key owners) (Keeps self key content)
        (handlers-KeepsAdmitted env (Harmless key owners) (Keeps self key content) run-RoutesKeep c
          codec)
        (λ v i. i.same_key) (λ v fuel r ln others e i. elsewhere self key content v i ln others)
        (λ v others i. elsewhere self key content v i v.ring others) xs w harmless h
