-- ===== src/Startup/Host/Valid.antt =====
-- The responses of the server's routes, as messages.
use peerstore.Base.{◌≡◌, Option, none, some, subst}
use peerstore.Base.Result.{Result, ok, err, panic}
use peerstore.Models.Node.{PublicKey}
use peerstore.Protocol.Message.{Request, Response, IsResponse}
use peerstore.Protocol.Server.{Reply}
use peerstore.Protocol.Server.Responds.{
  Replies, node_handlers-Replies, Yields, user_registration_handler-Yields,
}
use peerstore.Chord.LocalNode.{LocalNode}
use peerstore.Chord.Handlers.Responds.{MaybeResponse, ring_handlers-IsResponse}
use peerstore.Chord.Handlers.{
  successor_handler, set_predecessor_handler, get_predecessor_handler, finger_table_handler,
}
use peerstore.File.Handlers.{Files, Outcome, respond}
use peerstore.File.Handlers.Responds.{Responds, file_handlers-Responds}
use peerstore.Startup.{
  Route, get_file, post_file, get_public_key, post_public_key, delete_file, successor,
  set_predecessor, get_predecessor, finger_table, user_registration, node_registration, node_trust,
}
use peerstore.Startup.Host.{Host, Environment, on_files, on_server, on_ring, on_others, on_calls}
use peerstore.Startup.Host.{run}

-- The response of a handler, if it answers
abbrev pub Answers : {W : Type 0} → Result (W × Response) → Type 0
Answers (ok (w, resp)) = IsResponse resp
Answers (err e) = Unit
Answers panic = Unit

module _ {W : Type 0} (w : Host W) where
  on_files-Answers : (x : Outcome × Files) → Responds x.0 → Answers (on_files w x)
  on_files-Answers (respond resp, files) v = v
  on_files-Answers (Outcome.panic, files) v = tt
  on_files-Answers (Outcome.stuck, files) v = tt

  on_server-Answers : (x : Reply) → Replies x → Answers (on_server w x)
  on_server-Answers (ok (s, resp)) v = v
  on_server-Answers (err e) v = tt
  on_server-Answers panic v = tt

  on_ring-Answers : (x : Response × LocalNode) → IsResponse x.0 → Answers (on_ring w x)
  on_ring-Answers (resp, ln) v = v

  on_others-Answers : (x : Option Response × W) → MaybeResponse x.0 → Answers (on_others w x)
  on_others-Answers (none, others) v = tt
  on_others-Answers (some resp, others) v = v

  on_calls-Answers : (x : Result Response × W) → Yields x.0 → Answers (on_calls w x)
  on_calls-Answers (ok resp, others) v = v
  on_calls-Answers (err e, others) v = tt
  on_calls-Answers (panic, others) v = tt

module _ {W : Type 0} (env : Environment W) (key : Option PublicKey) (r : Request)
    (w : Host W) where
  ring :
      MaybeResponse (successor_handler env.hash env.peers env.ring_gob w.ring r w.others).0
      × IsResponse (set_predecessor_handler env.ring_gob w.ring r).0
      × IsResponse (get_predecessor_handler env.ring_gob w.ring r)
      × IsResponse (finger_table_handler env.encode_table w.ring r)
  ring = ring_handlers-IsResponse env.hash env.peers env.ring_gob env.encode_table w.ring r w.others

  run-Answers : (route : Route) → Answers (run env route key r w)
  unfolding run
  run-Answers get_file = on_files-Answers w _ (file_handlers-Responds env.faults r w.files).0
  run-Answers post_file = on_files-Answers w _ (file_handlers-Responds env.faults r w.files).1
  run-Answers get_public_key = on_files-Answers w _ (file_handlers-Responds env.faults r w.files).2
  run-Answers post_public_key = on_files-Answers w _ (file_handlers-Responds env.faults r w.files).3
  run-Answers delete_file = on_files-Answers w _ (file_handlers-Responds env.faults r w.files).4
  run-Answers successor = on_others-Answers w _ ring.0
  run-Answers set_predecessor =
      on_ring-Answers w (set_predecessor_handler env.ring_gob w.ring r) ring.1
  run-Answers get_predecessor = ring.2
  run-Answers finger_table = ring.3
  run-Answers user_registration =
      on_calls-Answers w _
        (user_registration_handler-Yields env.codec env.calls w.server r w.others)
  run-Answers node_registration =
      on_server-Answers w _ (node_handlers-Replies env.rsa env.server_gob w.server r).0
  run-Answers node_trust =
      on_server-Answers w _ (node_handlers-Replies env.rsa env.server_gob w.server r).1

  -- Every response of every route, whatever the request, the state, the system and the other nodes, has a status that
  -- the client's validation lets through.
  pub run-IsResponse :
      (route : Route) (w' : Host W) (resp : Response)
      → run env route key r w ≡ ok (w', resp)
      → IsResponse resp
  run-IsResponse route w' resp e = subst Answers e (run-Answers route)
