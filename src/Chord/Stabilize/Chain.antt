-- ===== src/Chord/Stabilize/Chain.antt =====
-- The loop of `Stabilize` over the chain of predecessors, against answers that do not change.
use peerstore.Base.{ℕ, zero, suc, ◌≡◌, refl, ◌∙◌, none, String, string_eq}
use peerstore.Base.Result.{Result, ok}
use peerstore.Models.Node.{Identifier, Node}
use peerstore.Chord.LocalNode.{LocalNode}
use peerstore.Chord.LocalNode.Predecessor.{HasAddr}
use peerstore.Chord.Remote.{Peers}
use peerstore.Chord.Stabilize.{remote, chain_loop}

module _ {W : Type 0} (hash : String → Identifier) (others : Peers W) (ln : LocalNode)
    (pred : Node → Node)
    (answers : (n : Node) (w : W)
      → others.get_predecessor (remote hash others n) w ≡ (ok (pred n), w)) where
  -- `q` is the end of the chain of `k` predecessors behind `p`: it has none itself.
  pub data Ends : ℕ → Node → Node → Type 0 where
    last : {p : Node} → (pred p).addr ≡ "" → Ends zero p p
    more : {k : ℕ} {p q : Node} → HasAddr (pred p) → Ends k (pred p) q → Ends (suc k) p q

  chain_step :
      (fuel : ℕ) (p : Node) (w : W)
      → HasAddr (pred p)
      → chain_loop hash others (suc fuel) ln p w ≡ chain_loop hash others fuel ln (pred p) w
  unfolding chain_loop
  chain_step fuel p w h = rw (answers p w, h)

  -- Where every node names a predecessor and the answers do not change, as in a closed ring, no
  -- number of rounds is enough: the loop does not end.
  pub chain_loop_endless :
      ((n : Node) → HasAddr (pred n))
      → (fuel : ℕ) (p : Node) (w : W) → chain_loop hash others fuel ln p w ≡ none
  chain_loop_endless all zero p w = unfold chain_loop in refl
  chain_loop_endless all (suc fuel) p w =
      chain_step fuel p w (all p) ∙ chain_loop_endless all fuel (pred p) w
