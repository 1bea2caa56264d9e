-- ===== src/Startup/Host/Events.antt =====
-- What happens to a running server: messages on its connections, and the two timers of `main` of
-- cmd/peerstore/server/main.go, which stabilize the node and look an identifier up.
use peerstore.Base.{refl, ℕ, ◌≡◌, Option, none, some, List, [], ◌∷◌}
use peerstore.Base.{bytes_eq}
use peerstore.Base.Result.{Result, ok, err, panic}
use peerstore.Models.Node.{Node, PrivateKey}
use peerstore.Crypto.Pem.{Codec}
use peerstore.Protocol.Message.{Request}
use peerstore.Protocol.Envelope.{Suite}
use peerstore.Protocol.Connection.{Turn, next, closed, crashed, stuck}
use peerstore.Protocol.Connection.Rounds.{Round, handle_connection}
use peerstore.Protocol.Connection.Rounds.Guarded.{
  Leaving, Carries, KeepsAdmitted, connection_guarded,
}
use peerstore.Chord.LocalNode.{LocalNode}
use peerstore.Chord.Stabilize.{successor, stabilize}
use peerstore.Startup.Host.{Host, Environment, host_server, handlers}

-- Messages of several connections come in any order. `stabilizes` has the fuel of its loop.
pub data Happening : Type 0 where
  message : Round → Happening
  stabilizes : ℕ → Happening
  looks_up : Happening

module _ {W : Type 0} where
  -- The host after a message. A worker that does not return changes nothing more.
  abbrev after_turn : Host W → Turn (Host W) → Option (Host W)
  after_turn w (next v sent) = some v
  after_turn w (closed v sent) = some v
  after_turn w crashed = none
  after_turn w stuck = some w

  -- The error of `Stabilize` is dropped, and a loop that does not end leaves the others to go on.
  abbrev stabilized : Host W → Option (Result (Unit {0}) × LocalNode × W) → Option (Host W)
  stabilized w none = some w
  stabilized w (some (ok _, ln, others)) = some (record w { ring = ln; others = others })
  stabilized w (some (err e, ln, others)) = some (record w { ring = ln; others = others })
  stabilized w (some (panic, ln, others)) = none

  -- The answer is only logged.
  abbrev looked_up : Host W → Result Node × W → Option (Host W)
  looked_up w (ok n, others) = some (record w { others = others })
  looked_up w (err e, others) = some (record w { others = others })
  looked_up w (panic, others) = none

  module _ (env : Environment W) (c : Suite) (codec : Codec) where
    -- `none` is the end of the program.
    unfoldable pub happens : Happening → Host W → Option (Host W)
    happens (message x) w =
        after_turn w (handle_connection c codec host_server (handlers env) (x ∷ []) w [])
    happens (stabilizes fuel) w = stabilized w (stabilize env.hash env.peers fuel w.ring w.others)
    happens looks_up w =
        looked_up w (successor env.hash env.peers w.ring (env.hash "hello") w.others)

    abbrev and_then : Option (Host W) → (Host W → Option (Host W)) → Option (Host W)
    and_then none f = none
    and_then (some w) f = f w

    unfoldable pub goes_on : List Happening → Host W → Option (Host W)
    goes_on [] w = some w
    goes_on (x ∷ xs) w = and_then (happens x w) (λ v. goes_on xs v)

-- The state that is left, if the program has not ended
abbrev pub Lives : {W : Type 0} → (Host W → Type 0) → Option (Host W) → Type 0
Lives I none = Unit
Lives I (some w) = I w

pub Lives-weaker :
    {W : Type 0} (I J : Host W → Type 0) (o : Option (Host W))
    → ((v : Host W) → I v → J v)
    → Lives I o
    → Lives J o
Lives-weaker I J none weaker h = tt
Lives-weaker I J (some v) weaker h = weaker v h

-- Every message is a request of `P`.
abbrev pub AllCarry : Suite → PrivateKey → (Request → Type 0) → List Happening → Type 0
AllCarry c self P [] = Unit
AllCarry c self P (message x ∷ xs) = Carries c self P (x ∷ []) × AllCarry c self P xs
AllCarry c self P (stabilizes fuel ∷ xs) = AllCarry c self P xs
AllCarry c self P (looks_up ∷ xs) = AllCarry c self P xs

-- A property of the host that fixes its private key, that the handlers keep on requests of `P`, and that does not
-- hang on the ring
module _ {W : Type 0} (env : Environment W) (c : Suite) (codec : Codec) (self : PrivateKey)
    (P : Request → Type 0) (I : Host W → Type 0)
    (keeps : KeepsAdmitted c codec host_server (handlers env) P I)
    (fixed : (w : Host W) → I w → w.server.private_key ≡ self)
    (steady : (w : Host W) (fuel : ℕ) (r : Result (Unit {0})) (ln : LocalNode) (others : W)
      → stabilize env.hash env.peers fuel w.ring w.others ≡ some (r, ln, others)
      → I w
      → I (record w { ring = ln; others = others }))
    (aside : (w : Host W) (others : W) → I w → I (record w { others = others })) where
  after_turn-Lives : (w : Host W) (t : Turn (Host W)) → I w → Leaving I t → Lives I (after_turn w t)
  after_turn-Lives w (next v sent) h l = l
  after_turn-Lives w (closed v sent) h l = l
  after_turn-Lives w crashed h l = tt
  after_turn-Lives w stuck h l = h

  stabilized-Lives :
      (w : Host W) (fuel : ℕ) (o : Option (Result (Unit {0}) × LocalNode × W))
      → stabilize env.hash env.peers fuel w.ring w.others ≡ o
      → I w
      → Lives I (stabilized w o)
  stabilized-Lives w fuel none e h = h
  stabilized-Lives w fuel (some (ok _, ln, others)) e h = steady w fuel _ ln others e h
  stabilized-Lives w fuel (some (err x, ln, others)) e h = steady w fuel _ ln others e h
  stabilized-Lives w fuel (some (panic, ln, others)) e h = tt

  looked_up-Lives : (w : Host W) (x : Result Node × W) → I w → Lives I (looked_up w x)
  looked_up-Lives w (ok n, others) h = aside w others h
  looked_up-Lives w (err e, others) h = aside w others h
  looked_up-Lives w (panic, others) h = tt

  and_then-Lives :
      (o : Option (Host W)) (f : Host W → Option (Host W))
      → Lives I o
      → ((v : Host W) → I v → Lives I (f v))
      → Lives I (and_then env c codec o f)
  and_then-Lives none f h k = tt
  and_then-Lives (some v) f h k = k v h

  -- It holds as long as the program has not ended.
  pub goes_on-Lives :
      (xs : List Happening) (w : Host W)
      → AllCarry c self P xs
      → I w
      → Lives I (goes_on env c codec xs w)
  unfolding goes_on happens
  goes_on-Lives [] w carried h = h
  goes_on-Lives (message x ∷ xs) w (here, later) h =
      and_then-Lives (happens env c codec (message x) w) _
        (after_turn-Lives w _ h (
          connection_guarded c codec host_server (handlers env) P I keeps self (x ∷ []) w [] fixed
            here h))
        λ v k. goes_on-Lives xs v later k
  goes_on-Lives (stabilizes fuel ∷ xs) w carried h =
      and_then-Lives (happens env c codec (stabilizes fuel) w) _ (stabilized-Lives w fuel _ refl h)
        λ v k. goes_on-Lives xs v carried k
  goes_on-Lives (looks_up ∷ xs) w carried h =
      and_then-Lives (happens env c codec looks_up w) _ (looked_up-Lives w _ h)
        λ v k. goes_on-Lives xs v carried k
