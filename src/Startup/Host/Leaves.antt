-- ===== src/Startup/Host/Leaves.antt =====
-- What the handlers behind the routes leave of the host, and what connections and timers then leave of it.
use peerstore.Base.{◌≡◌, refl, ap, ◌∙◌, subst, nat_eq, Option, none, some}
use peerstore.Base.Dict.{lookup}
use peerstore.Base.Result.{Result, ok, err, panic}
use peerstore.Models.Node.{PublicKey}
use peerstore.Crypto.Pem.{Codec}
use peerstore.Protocol.Message.{Request, Response}
use peerstore.Protocol.Envelope.{Suite}
use peerstore.Protocol.Connection.{Handler}
use peerstore.Protocol.Connection.Rounds.Guarded.{KeepsAdmitted}
use peerstore.Chord.LocalNode.{LocalNode}
use peerstore.File.Handlers.{Files, Outcome, respond}
use peerstore.Startup.{Route, routes}
use peerstore.Startup.Host.{Host, Environment, host_server, run, of_route, handlers}
use peerstore.Startup.Host.{on_files, on_ring, on_others, on_calls}

-- A property of what an answer of a handler leaves
abbrev pub Leaves : {W : Type 0} → (Host W → Type 0) → Result (Host W × Response) → Type 0
Leaves I (ok (w, resp)) = I w
Leaves I (err e) = Unit
Leaves I panic = Unit

module _ {W : Type 0} (I : Host W → Type 0) (w : Host W) where
  pub on_files-Leaves :
      (x : Outcome × Files) → I (record w { files = x.1 }) → Leaves I (on_files w x)
  on_files-Leaves (respond resp, files) i = i
  on_files-Leaves (Outcome.panic, files) i = tt
  on_files-Leaves (Outcome.stuck, files) i = tt

  pub on_ring-Leaves :
      (x : Response × LocalNode) → I (record w { ring = x.1 }) → Leaves I (on_ring w x)
  on_ring-Leaves (resp, ln) i = i

  pub on_others-Leaves :
      (x : Option Response × W) → I (record w { others = x.1 }) → Leaves I (on_others w x)
  on_others-Leaves (none, others) i = tt
  on_others-Leaves (some resp, others) i = i

  pub on_calls-Leaves :
      (x : Result Response × W) → I (record w { others = x.1 }) → Leaves I (on_calls w x)
  on_calls-Leaves (ok resp, others) i = i
  on_calls-Leaves (err e, others) i = tt
  on_calls-Leaves (panic, others) i = tt

-- Each route keeps `I` on the requests of `P` that are routed to it.
abbrev pub RoutesKeep :
    {W : Type 0} → Environment W → (Request → Type 0) → (Host W → Type 0) → Type 0
RoutesKeep {W} env P I =
    (context : Option PublicKey) (r : Request) (w : Host W) (route : Route)
    → P r
    → lookup r.method routes ≡ some route
    → I w
    → Leaves I (run env route context r w)

module _ {W : Type 0} (env : Environment W) (P : Request → Type 0) (I : Host W → Type 0)
    (keep : RoutesKeep env P I) where
  routed_handler :
      (o : Option Route) (f : Handler (Host W))
      → of_route env o ≡ some f
      → (route : Route) × (o ≡ some route) × (run env route ≡ f)
  routed_handler none f e = cc
  routed_handler (some route) f e = (route, refl, cc)

  pub handlers-KeepsAdmitted :
      (c : Suite) (codec : Codec) → KeepsAdmitted c codec host_server (handlers env) P I
  handlers-KeepsAdmitted c codec f out em e r raw before w w' resp p known a answered h =
      let (route, routed, same) = routed_handler (lookup r.method routes) f known in
      let left = keep em.header.pub_key r w route p routed h in
      subst (Leaves I) (ap (λ (g : Handler (Host W)). g em.header.pub_key r w) same ∙ answered) left
