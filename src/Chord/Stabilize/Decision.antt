-- ===== src/Chord/Stabilize/Decision.antt =====
-- The decision of `Stabilize` against distances on the ring. With `p` the predecessor that the successor
-- `s` names, this node belongs before `s` if it is nearer behind `s` than `p` is, and `p` belongs between
-- this node and `s` if not.
use peerstore.Base.{ℕ, ◌<◌, ◌≤◌, ◌≡◌, ◌≢◌, refl, ◌∙◌, ap, String, ltb, true, false}
use peerstore.Base.{◌==◌, nat_eq, if◌then◌else◌, arith, ◌&&◌, ◌||◌}
use peerstore.Base.Result.{Result, ok, err, panic}
use peerstore.Models.Node.{Identifier, Node, zero_node, key_to_id, big_int}
use peerstore.Models.Node.Order.{key_to_id-lt}
use peerstore.Models.FingerTable.{Finger, IsTable, get_ith, new_interval}
use peerstore.Models.FingerTable.Laws.{get_ith-set_ith}
use peerstore.Chord.Ring.{arc}
use peerstore.Chord.LocalNode.{LocalNode, to_node, set_successor}
use peerstore.Chord.Remote.{Peers}
use peerstore.Chord.Stabilize.{remote, told, decide, stabilize_with, notify, adopt, Outcome}

-- The first finger after `SetSuccessor` is the node that was set.
pub get_ith-set_successor :
    (ln : LocalNode) (n : Node)
    → IsTable ln.finger_table
    → (f : Finger) × (get_ith (set_successor ln n).finger_table 1 ≡ ok f)
      × (f.successor ≡ n)
      × IsTable (set_successor ln n).finger_table
unfolding set_successor
get_ith-set_successor ln n t =
    let (ft, written, read_back, others_kept, t') =
      get_ith-set_ith ln.finger_table 1 (new_interval (to_node ln) n) n (to_node ln) t (omega arith)
        (omega arith) in
    rw written (_, read_back, refl, t')

upward_test :
    (l p s : ℕ) → l < 160 → s < 160 → p < s → (ltb p l && ltb l s) ≡ ltb (arc l s) (arc p s)
unfolding arc
upward_test l p s h k lt = ground arith

wrapped_test :
    (l p s : ℕ) → l < 160 → p < 160 → s ≤ p → (ltb p l || ltb l s) ≡ ltb (arc l s) (arc p s)
unfolding arc
wrapped_test l p s h k le = ground arith

farther : (l p s : ℕ) → l < 160 → p < 160 → p ≢ l → s < p → arc l s < arc p s → arc l s < arc l p
unfolding arc
farther l p s h k n lt near = ground arith

far_from_zero : (l s : ℕ) → l < 160 → s < 160 → 0 < s → s ≤ l → ltb (arc l s) (arc 0 s) ≡ false
unfolding arc
far_from_zero l s h k pos le = ground arith

module _ {W : Type 0} (hash : String → Identifier) (others : Peers W) (ln : LocalNode) (s p : Node)
    (w w' : W) (asked_for : others.get_predecessor (remote hash others s) w ≡ (ok p, w')) where
  abbrev ln_place : ℕ
  ln_place = key_to_id ln.node.id

  abbrev p_place : ℕ
  p_place = key_to_id p.id

  abbrev s_place : ℕ
  s_place = key_to_id s.id

  adopt-node : (n : Node) (v : W) → (adopt hash others ln n v).1 ≡ set_successor ln n
  adopt-node n v =
      go (others.set_predecessor (remote hash others n) (to_node (set_successor ln n)) v)
    where
      go :
          (x : Result (Unit {0}) × W)
          → (told hash others "error setting new successor's predecessor to self: "
              (set_successor ln n)
              x).1
            ≡ set_successor ln n
      go (ok _, v') = refl
      go (err e, v') = refl
      go (panic, v') = refl

  decided : stabilize_with hash others ln s w ≡ decide hash others ln s p w'
  unfolding stabilize_with
  decided = rw asked_for

  -- Where the successor names a predecessor at another place than this node's, and the successor's
  -- place is above it, the nearer of the two is kept: this node is announced to the successor, or
  -- the predecessor becomes the successor.
  pub stabilize_with-upward :
      p_place ≢ ln_place
      → p_place < s_place
      → stabilize_with hash others ln s w ≡ (
          if ltb (arc ln_place s_place) (arc p_place s_place)
          then notify hash others ln s w'
          else adopt hash others ln p w')
  stabilize_with-upward n h =
      let other : (p_place == ln_place) ≡ false = ground arith in
      let up : ltb p_place s_place ≡ true = ground arith in
      let test =
        upward_test ln_place p_place s_place (key_to_id-lt ln.node.id) (key_to_id-lt s.id) h in
      decided ∙ rw (other, up, test)

  -- Where the ring wraps between the two it is the other way round: the node that is nearer behind the
  -- successor takes the farther one for its successor, and the farther one is announced.
  pub stabilize_with-wrapped :
      p_place ≢ ln_place
      → s_place ≤ p_place
      → stabilize_with hash others ln s w ≡ (
          if ltb (arc ln_place s_place) (arc p_place s_place)
          then adopt hash others ln p w'
          else notify hash others ln s w')
  stabilize_with-wrapped n h =
      let other : (p_place == ln_place) ≡ false = ground arith in
      let down : ltb p_place s_place ≡ false = ground arith in
      let test =
        wrapped_test ln_place p_place s_place (key_to_id-lt ln.node.id) (key_to_id-lt p.id) h in
      decided ∙ rw (other, down, test)

  -- A node with a whole table that is nearer behind its successor than the predecessor that the
  -- successor names takes, if the ring wraps between these two and the predecessor is at another
  -- place, a successor that is farther away than the one it had.
  pub stabilize_overshoots :
      IsTable ln.finger_table
      → p_place ≢ ln_place
      → s_place < p_place
      → arc ln_place s_place < arc p_place s_place
      → (f : Finger) × (get_ith (stabilize_with hash others ln s w).1.finger_table 1 ≡ ok f)
        × (f.successor ≡ p)
        × (arc ln_place s_place < arc ln_place p_place)
  stabilize_overshoots t n h near =
      let (f, read_back, is_p, t') = get_ith-set_successor ln p t in
      let nearer : ltb (arc ln_place s_place) (arc p_place s_place) ≡ true = ground arith in
      let result : stabilize_with hash others ln s w ≡ adopt hash others ln p w' =
        stabilize_with-wrapped n (omega arith) ∙ rw nearer in
      (
        f,
        ap (λ (o : Outcome hash others). get_ith o.1.finger_table 1) result
            ∙ ap (λ (l : LocalNode). get_ith l.finger_table 1) (adopt-node p w')
            ∙ read_back,
        is_p,
        farther ln_place p_place s_place (key_to_id-lt ln.node.id) (key_to_id-lt p.id) n h near,
      )

  -- A successor that knows no predecessor names the empty node, whose place is 0. A node with a
  -- whole table that is not below its successor, which is above 0, takes that for its own
  -- successor.
  pub stabilize_adopts_nobody :
      IsTable ln.finger_table
      → p ≡ zero_node
      → 0 < s_place
      → s_place ≤ ln_place
      → (f : Finger) × (get_ith (stabilize_with hash others ln s w).1.finger_table 1 ≡ ok f)
        × (f.successor ≡ zero_node)
  stabilize_adopts_nobody t e pos le =
      let (f, read_back, is_p, t') = get_ith-set_successor ln p t in
      let zero_place : p_place ≡ 0 = rw e (unfold key_to_id big_int in refl) in
      let far : ltb (arc ln_place s_place) (arc p_place s_place) ≡ false =
        rw zero_place
          (far_from_zero ln_place s_place (key_to_id-lt ln.node.id) (key_to_id-lt s.id) pos le) in
      let result : stabilize_with hash others ln s w ≡ adopt hash others ln p w' =
        stabilize_with-upward (omega arith) (omega arith) ∙ rw far in
      (
        f,
        ap (λ (o : Outcome hash others). get_ith o.1.finger_table 1) result
            ∙ ap (λ (l : LocalNode). get_ith l.finger_table 1) (adopt-node p w')
            ∙ read_back,
        is_p ∙ e,
      )
