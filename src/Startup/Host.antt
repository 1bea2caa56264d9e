-- ===== src/Startup/Host.antt =====
-- The running server program of cmd/peerstore/server/main.go: the state that its connections share, and the handler
-- behind each route. What its own requests to nodes reach is a state of its own, `others`; such a request to the
-- node itself comes in on another connection.
pub mod Valid
pub mod Guarded
pub mod Forged
pub mod Events
pub mod Leaves
pub mod Lasting
pub mod Rings
pub mod Begins
use peerstore.Base.{ℕ, String, Option, none, some, Bytes, ◌==◌, nat_eq, bytes_eq}
use peerstore.Base.Dict.{lookup}
use peerstore.Base.Result.{cause, Result, ok, err, panic, map_ok}
use peerstore.Models.Node.{Identifier, PublicKey}
use peerstore.Models.FingerTable.{FingerTable}
use peerstore.Crypto.Rsa.{Rsa}
use peerstore.Crypto.Pem.{Codec}
use peerstore.Protocol.Message.{Request, Response}
use peerstore.Protocol.Server as ServerModule
use peerstore.Protocol.Server.{Server, node_registration_handler, node_trust_handler}
use peerstore.Protocol.Registration.{Calls, user_registration_handler}
use peerstore.Protocol.Connection.{Handler}
use peerstore.File.Storage.{Faults}
use peerstore.File.Handlers.{
  Files, Outcome, respond, get_file_handler, post_file_handler, delete_file_handler,
}
use peerstore.File.Handlers.{get_public_key_handler, post_public_key_handler}
use peerstore.Chord.LocalNode.{LocalNode}
use peerstore.Chord.Remote.{Gob, Peers}
use peerstore.Chord.Handlers.{
  successor_handler, get_predecessor_handler, set_predecessor_handler, finger_table_handler,
}
use peerstore.Startup.{
  Route, get_file, post_file, get_public_key, post_public_key, delete_file, successor,
  set_predecessor, get_predecessor, finger_table, user_registration, node_registration, node_trust,
  routes,
}

-- What the handlers share: the server's map of trusted nodes, the files and the clock, the node of the ring
pub record Host (W : Type 0) : Type 0 where
  pub server : Server
  pub files : Files
  pub ring : LocalNode
  pub others : W

-- What the handlers use of the system and of libraries, and the requests that they send
pub record Environment (W : Type 0) : Type 0 where
  pub rsa : Rsa
  pub codec : Codec
  pub faults : Faults
  pub hash : String → Identifier
  pub server_gob : ServerModule.Gob
  pub ring_gob : Gob
  pub encode_table : FingerTable → Option Bytes
  pub calls : Calls W
  pub peers : Peers W

abbrev pub host_server : {W : Type 0} → Host W → Server
host_server w = w.server

module _ {W : Type 0} where
  -- A panic of a handler ends the program. The loop that reads a file has fuel for every file.
  abbrev pub on_files : Host W → Outcome × Files → Result (Host W × Response)
  on_files w (respond resp, files) = ok (record w { files = files }, resp)
  on_files w (Outcome.panic, files) = panic
  on_files w (Outcome.stuck, files) = err (cause "fuel")

  abbrev pub on_server : Host W → ServerModule.Reply → Result (Host W × Response)
  on_server w reply = map_ok (λ r. (record w { server = r.0 }, r.1)) reply

  abbrev pub on_ring : Host W → Response × LocalNode → Result (Host W × Response)
  on_ring w (resp, ln) = ok (record w { ring = ln }, resp)

  abbrev pub on_others : Host W → Option Response × W → Result (Host W × Response)
  on_others w (none, others) = panic
  on_others w (some resp, others) = ok (record w { others = others }, resp)

  abbrev pub on_calls : Host W → Result Response × W → Result (Host W × Response)
  on_calls w (r, others) = map_ok (λ resp. (record w { others = others }, resp)) r

  module _ (env : Environment W) where
    -- The handler of a route. No handler looks at the key in the context.
    unfoldable pub run : Route → Handler (Host W)
    run get_file _ r w = on_files w (get_file_handler env.faults r w.files)
    run post_file _ r w = on_files w (post_file_handler env.faults r w.files)
    run get_public_key _ r w = on_files w (get_public_key_handler env.faults r w.files)
    run post_public_key _ r w = on_files w (post_public_key_handler env.faults r w.files)
    run delete_file _ r w = on_files w (delete_file_handler env.faults r w.files)
    run successor _ r w =
        on_others w (successor_handler env.hash env.peers env.ring_gob w.ring r w.others)
    run set_predecessor _ r w = on_ring w (set_predecessor_handler env.ring_gob w.ring r)
    run get_predecessor _ r w = ok (w, get_predecessor_handler env.ring_gob w.ring r)
    run finger_table _ r w = ok (w, finger_table_handler env.encode_table w.ring r)
    run user_registration _ r w =
        on_calls w (user_registration_handler env.codec env.calls w.server r w.others)
    run node_registration _ r w =
        on_server w (node_registration_handler env.rsa env.server_gob w.server r)
    run node_trust _ r w = on_server w (node_trust_handler env.rsa env.server_gob w.server r)

    abbrev pub of_route : Option Route → Option (Handler (Host W))
    of_route none = none
    of_route (some route) = some (run route)

    -- `handlerMap`
    abbrev pub handlers : ℕ → Option (Handler (Host W))
    handlers method = of_route (lookup method routes)
