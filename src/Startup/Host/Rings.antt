-- ===== src/Startup/Host/Rings.antt =====
-- The node of the ring of a running server.
use peerstore.Base.{subst, ◌≡◌, refl, List, [], ◌∷◌, nat_eq, arith}
use peerstore.Base.Result.{ok}
use peerstore.Models.Node.{Identifier, Node, key_to_id, PrivateKey}
use peerstore.Models.FingerTable.{IsTable}
use peerstore.Crypto.Rsa.{Rsa}
use peerstore.Crypto.Pem.{Codec}
use peerstore.Protocol.Message.{Request}
use peerstore.Protocol.Envelope.{Suite}
use peerstore.Protocol.Server as ServerModule
use peerstore.Protocol.Server.{
  node_registration_handler, node_trust_handler, add_trusted_node, registration_reply,
}
use peerstore.Chord.LocalNode.{closest_preceding_node}
use peerstore.Chord.Steady.{OfNode, set_successor-OfNode, set_predecessor_handler-OfNode}
use peerstore.Chord.LocalNode.Closest.{IsClosest, closest_preceding_node-IsClosest}
use peerstore.Chord.Handlers.{set_predecessor_handler}
use peerstore.Chord.Stabilize.Keeps.{stabilize-keeps}
use peerstore.File.Handlers.{Files}
use peerstore.Startup.{
  get_file, post_file, get_public_key, post_public_key, delete_file, successor, set_predecessor,
  get_predecessor, finger_table, user_registration, node_registration, node_trust,
}
use peerstore.Startup.Host.{Host, Environment, run, on_server}
use peerstore.Startup.Host.Leaves.{
  Leaves, on_files-Leaves, on_ring-Leaves, on_others-Leaves, on_calls-Leaves, RoutesKeep,
  handlers-KeepsAdmitted,
}
use peerstore.Startup.Host.Events.{
  Lives-weaker, Happening, message, stabilizes, looks_up, AllCarry, Lives, goes_on, goes_on-Lives,
}

abbrev Anything : Request → Type 0
Anything r = Unit

Anything-AllCarry :
    (c : Suite) (self : PrivateKey) (xs : List Happening) → AllCarry c self Anything xs
Anything-AllCarry c self [] = tt
Anything-AllCarry c self (message x ∷ xs) = ((λ em r raw d. tt, tt), Anything-AllCarry c self xs)
Anything-AllCarry c self (stabilizes fuel ∷ xs) = Anything-AllCarry c self xs
Anything-AllCarry c self (looks_up ∷ xs) = Anything-AllCarry c self xs

-- The host has this private key, and its node of the ring is this one, with a whole finger table.
record HasRing {W : Type 0} (self key : PrivateKey) (n : Node) (w : Host W) : Type 0 where
  same_key : w.server.private_key ≡ self
  of_node : OfNode n key w.ring

module _ {W : Type 0} (self key : PrivateKey) (n : Node) (w : Host W)
    (h : HasRing self key n w) where
  same :
      (files : Files) (others : W)
      → HasRing self key n (record w { files = files; others = others })
  same files others = record { same_key = h.same_key; of_node = h.of_node }

  node_handlers-Left :
      (c : Rsa) (gob : ServerModule.Gob) (r : Request)
      → Leaves (HasRing self key n) (on_server w (node_registration_handler c gob w.server r))
        × Leaves (HasRing self key n) (on_server w (node_trust_handler c gob w.server r))
  unfolding node_registration_handler node_trust_handler add_trusted_node registration_reply
  node_handlers-Left c gob r = (ground arith, ground arith)

module _ {W : Type 0} (env : Environment W) (self key : PrivateKey) (n : Node) where
  abbrev I : Host W → Type 0
  I = HasRing self key n

  run-RoutesKeep : RoutesKeep env Anything (HasRing self key n)
  unfolding run
  run-RoutesKeep context r w get_file p routed h =
      on_files-Leaves I w _ (same self key n w h _ w.others)
  run-RoutesKeep context r w post_file p routed h =
      on_files-Leaves I w _ (same self key n w h _ w.others)
  run-RoutesKeep context r w get_public_key p routed h =
      on_files-Leaves I w _ (same self key n w h _ w.others)
  run-RoutesKeep context r w post_public_key p routed h =
      on_files-Leaves I w _ (same self key n w h _ w.others)
  run-RoutesKeep context r w delete_file p routed h =
      on_files-Leaves I w _ (same self key n w h _ w.others)
  run-RoutesKeep context r w successor p routed h =
      on_others-Leaves I w _ (same self key n w h w.files _)
  run-RoutesKeep context r w set_predecessor p routed h =
      on_ring-Leaves I w (set_predecessor_handler env.ring_gob w.ring r) (record {
        same_key = h.same_key;
        of_node = set_predecessor_handler-OfNode env.ring_gob n key w.ring r h.of_node;
      })
  run-RoutesKeep context r w get_predecessor p routed h = h
  run-RoutesKeep context r w finger_table p routed h = h
  run-RoutesKeep context r w user_registration p routed h =
      on_calls-Leaves I w _ (same self key n w h w.files _)
  run-RoutesKeep context r w node_registration p routed h =
      (node_handlers-Left self key n w h env.rsa env.server_gob r).0
  run-RoutesKeep context r w node_trust p routed h =
      (node_handlers-Left self key n w h env.rsa env.server_gob r).1

  goes_on-HasRing :
      (c : Suite) (codec : Codec) (xs : List Happening) (w : Host W)
      → HasRing self key n w
      → Lives (HasRing self key n) (goes_on env c codec xs w)
  goes_on-HasRing c codec xs w h =
      goes_on-Lives env c codec self Anything (HasRing self key n)
        (handlers-KeepsAdmitted env Anything (HasRing self key n) run-RoutesKeep c codec)
        (λ v i. i.same_key)
        (λ v fuel r ln others e i. record {
          same_key = i.same_key;
          of_node =
              stabilize-keeps env.hash env.peers (OfNode n key) (set_successor-OfNode n key) fuel
                v.ring ln v.others others r e i.of_node;
        })
        (λ v others i. record { same_key = i.same_key; of_node = i.of_node }) xs w
        (Anything-AllCarry c self xs) h

  -- What a host with this node answers for an identifier
  abbrev Answers : Identifier → Host W → Type 0
  Answers id v =
      (found : Node) × (closest_preceding_node v.ring id ≡ ok found)
      × IsClosest v.ring (key_to_id n.id) (key_to_id id) 160 found

  HasRing-Answers : (id : Identifier) (v : Host W) → HasRing self key n v → Answers id v
  HasRing-Answers id v h =
      let (table, same_node, same) = h.of_node in
      subst
        (λ (m : Node).
          (found : Node) × (closest_preceding_node v.ring id ≡ ok found)
          × IsClosest v.ring (key_to_id m.id) (key_to_id id) 160 found)
        same_node (closest_preceding_node-IsClosest v.ring id table)

-- Whatever messages come, from whomever, on whichever connections, and whatever the timers do, from a host whose
-- finger table has its 160 fingers: as long as the program has not ended, the search for an identifier in the
-- finger table ends with a node, which is the successor of the highest finger that is in use and lies between the
-- node that the host started with and the identifier, or that node itself where there is no such finger.
pub goes_on-IsClosest :
    {W : Type 0} (env : Environment W) (c : Suite) (codec : Codec) (xs : List Happening)
    (w : Host W) (id : Identifier)
    → IsTable w.ring.finger_table
    → Lives
        (λ (v : Host W).
          (found : Node) × (closest_preceding_node v.ring id ≡ ok found)
          × IsClosest v.ring (key_to_id w.ring.node.id) (key_to_id id) 160 found)
        (goes_on env c codec xs w)
goes_on-IsClosest env c codec xs w id table =
    Lives-weaker (HasRing w.server.private_key w.ring.key w.ring.node)
      (Answers env w.server.private_key w.ring.key w.ring.node id) (goes_on env c codec xs w)
      (HasRing-Answers env w.server.private_key w.ring.key w.ring.node id)
      (goes_on-HasRing env w.server.private_key w.ring.key w.ring.node c codec xs w
        (record { same_key = refl; of_node = (table, refl, refl) }))
