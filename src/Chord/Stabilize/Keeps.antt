-- ===== src/Chord/Stabilize/Keeps.antt =====
-- What `Stabilize` leaves of the node: it only sets successors.
use peerstore.Base.{
  ℕ, zero, suc, String, ◌≡◌, subst, Bool, true, false, Option, some, ◌==◌, string_eq, ltb, ◌&&◌,
  ◌||◌, nat_eq, if◌then◌else◌,
}
use peerstore.Base.Result.{Result, ok, err, panic}
use peerstore.Models.Node.{Identifier, Node, key_to_id, compare_node}
use peerstore.Chord.LocalNode.{LocalNode, set_successor, get_predecessor}
use peerstore.Chord.Remote.{Peers}
use peerstore.Chord.Stabilize.{
  Outcome, remote, dropping, join, chain_round, chain_loop, stabilize_alone, told, notify, adopt,
  decide, asked, stabilize_with, is_self, stabilize_from, stabilize, successor,
}

module _ {W : Type 0} (hash : String → Identifier) (others : Peers W) (Q : LocalNode → Type 0)
    (sets : (ln : LocalNode) (n : Node) → Q ln → Q (set_successor ln n)) where
  record Ends (x : Outcome hash others) : Type 0 where
    left : Q x.1

  record MayEnd (o : Option (Outcome hash others)) : Type 0 where
    left_by : (x : Outcome hash others) → o ≡ some x → Q x.1

  some-same : (x y : Outcome hash others) → some x ≡ some y → x ≡ y
  some-same x y e = cc

  ending : (x : Outcome hash others) → Ends x → MayEnd (some x)
  ending x h = record { left_by = λ y e. (subst Ends (some-same x y e) h).left }

  dropping-Ends :
      (ln : LocalNode) (x : Result (Unit {0}) × W) → Q ln → Ends (dropping hash others ln x)
  dropping-Ends ln (ok _, w) q = record { left = q }
  dropping-Ends ln (err e, w) q = record { left = q }
  dropping-Ends ln (panic, w) q = record { left = q }

  join-Ends : (ln : LocalNode) (p : Node) (w : W) → Q ln → Ends (join hash others ln p w)
  join-Ends ln p w q = dropping-Ends (set_successor ln p) _ (sets ln p q)

  told-Ends :
      (m : String) (ln : LocalNode) (x : Result (Unit {0}) × W)
      → Q ln
      → Ends (told hash others m ln x)
  told-Ends m ln (ok _, w) q = record { left = q }
  told-Ends m ln (err e, w) q = record { left = q }
  told-Ends m ln (panic, w) q = record { left = q }

  notify-Ends : (ln : LocalNode) (s : Node) (w : W) → Q ln → Ends (notify hash others ln s w)
  notify-Ends ln s w q = told-Ends _ ln _ q

  adopt-Ends : (ln : LocalNode) (p : Node) (w : W) → Q ln → Ends (adopt hash others ln p w)
  adopt-Ends ln p w q = told-Ends _ (set_successor ln p) _ (sets ln p q)

  if-Ends : (b : Bool) (x y : Outcome hash others) → Ends x → Ends y → Ends (if b then x else y)
  if-Ends true x y p q = p
  if-Ends false x y p q = q

  decide-Ends : (ln : LocalNode) (s p : Node) (w : W) → Q ln → Ends (decide hash others ln s p w)
  decide-Ends ln s p w q =
      let told = notify-Ends ln s w q in
      let adopted = adopt-Ends ln p w q in
      let here = key_to_id ln.node.id in
      let behind = key_to_id p.id in
      let ahead = key_to_id s.id in
      if-Ends (behind == here) _ _ (record { left = q })
        (if-Ends (ltb behind ahead) _ _
          (if-Ends (ltb behind here && ltb here ahead) _ _ told adopted)
          (if-Ends (ltb behind here || ltb here ahead) _ _ adopted told))

  asked-Ends :
      (ln : LocalNode) (s : Node) (x : Result Node × W) → Q ln → Ends (asked hash others ln s x)
  asked-Ends ln s (ok p, w) q = decide-Ends ln s p w q
  asked-Ends ln s (err e, w) q = record { left = q }
  asked-Ends ln s (panic, w) q = record { left = q }

  if-MayEnd :
      (b : Bool) (x y : Option (Outcome hash others))
      → MayEnd x
      → MayEnd y
      → MayEnd (if b then x else y)
  if-MayEnd true x y p q = p
  if-MayEnd false x y p q = q

  chain_round-MayEnd :
      (ln : LocalNode) (p : Node) (more : Node → W → Option (Outcome hash others))
      (x : Result Node × W)
      → ((n : Node) (w : W) → MayEnd (more n w))
      → Q ln
      → MayEnd (chain_round hash others ln p more x)
  chain_round-MayEnd ln p more (ok n, w) m q =
      if-MayEnd (n.addr == "") _ _ (ending _ (join-Ends ln p w q)) (m n w)
  chain_round-MayEnd ln p more (err e, w) m q = ending _ (record { left = q })
  chain_round-MayEnd ln p more (panic, w) m q = ending _ (record { left = q })

  chain_loop-MayEnd :
      (fuel : ℕ) (ln : LocalNode) (p : Node) (w : W)
      → Q ln
      → MayEnd (chain_loop hash others fuel ln p w)
  unfolding chain_loop
  chain_loop-MayEnd zero ln p w q = record { left_by = λ x e. cc }
  chain_loop-MayEnd (suc fuel) ln p w q =
      chain_round-MayEnd ln p _ (others.get_predecessor (remote hash others p) w)
        (λ n v. chain_loop-MayEnd fuel ln n v q) q

  stabilize_from-MayEnd :
      (fuel : ℕ) (ln : LocalNode) (x : Result Node × W)
      → Q ln
      → MayEnd (stabilize_from hash others fuel ln x)
  unfolding stabilize_alone stabilize_with
  stabilize_from-MayEnd fuel ln (ok s, w) q =
      if-MayEnd (is_self hash others (compare_node ln.node s)) _ _
        (if-MayEnd ((get_predecessor ln).addr == "") _ _ (ending _ (record { left = q }))
          (chain_loop-MayEnd fuel ln (get_predecessor ln) w q))
        (ending _ (asked-Ends ln s (others.get_predecessor (remote hash others s) w) q))
  stabilize_from-MayEnd fuel ln (err e, w) q = ending _ (record { left = q })
  stabilize_from-MayEnd fuel ln (panic, w) q = ending _ (record { left = q })

  -- A property of the node that setting a successor keeps holds after `Stabilize` if it held before.
  pub stabilize-keeps :
      (fuel : ℕ) (ln ln' : LocalNode) (w w' : W) (r : Result (Unit {0}))
      → stabilize hash others fuel ln w ≡ some (r, ln', w')
      → Q ln
      → Q ln'
  unfolding stabilize
  stabilize-keeps fuel ln ln' w w' r e q =
      (stabilize_from-MayEnd fuel ln (successor hash others ln ln.node.id w) q).left_by (r, ln', w')
        e
