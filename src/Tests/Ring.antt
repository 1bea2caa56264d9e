-- ===== src/Tests/Ring.antt =====
-- The theorems of Chord on a ring of two nodes.
use peerstore.Base.{
  List, ℕ, ◌≡◌, ◌≢◌, ◌<◌, ◌≤◌, ◌⊎◌, inl, inr, refl, ap, sym, ◌∙◌, arith, none, some, [], ◌∷◌, ◌++◌,
  ◌==◌, nat_eq, string_eq, replicate, length,
}
use peerstore.Base.{
  length-replicate, String, Bool-cases, true, if◌then◌else◌, All, get_elem?-replicate, ◌-◌,
}
use peerstore.Base.Dict.{lookup}
use peerstore.Base.Result.{ok}
use peerstore.Models.Node.{Identifier, Node, zero_node, key_to_id, big_int, big_int_from}
use peerstore.Models.Node.Order.{key_to_id-lt}
use peerstore.Models.FingerTable.{Finger, get_ith}
use peerstore.Chord.Ring.{arc, arc_bounds}
use peerstore.Chord.LocalNode.{LocalNode, to_node}
use peerstore.Chord.LocalNode.Predecessor.{announce_all, OneOf, behind, announce_all-nearest}
use peerstore.Chord.Remote.{Peers, Gob}
use peerstore.Protocol.Message.{Request, zero_header, set_predecessor_method}
use peerstore.Chord.Routing.{Nodes, IsRing, IsLast, route, route_ends}
use peerstore.Chord.Stabilize.{chain_loop, stabilize_with}
use peerstore.Chord.Stabilize.Chain.{chain_loop_endless}
use peerstore.Chord.Stabilize.Decision.{stabilize_overshoots}
use peerstore.Tests.Instances.{own_key}

abbrev node_at : ℕ → String → Node
node_at place addr = record {
  id = replicate 19 0 ++ place ∷ [];
  addr = addr;
  public_key = some own_key.public;
}

abbrev low : Node
low = node_at 10 "low"

abbrev high : Node
high = node_at 90 "high"

abbrev finger_to : Node → Finger
finger_to n = record { i = 0; interval = record { low = 0; high = 0 }; successor = n }

-- A node all of whose fingers name another
abbrev knowing : Node → Node → LocalNode
knowing n other = record {
  node = n;
  finger_table = record { table = replicate 160 (finger_to other) };
  predecessor = zero_node;
  key = own_key;
}

abbrev low_node : LocalNode
low_node = knowing low high

abbrev high_node : LocalNode
high_node = knowing high low

abbrev two_nodes : Nodes
two_nodes = ("low", low_node) ∷ ("high", high_node) ∷ []

abbrev hash : String → Identifier
hash a = replicate 20 0

in_range : (i : ℕ) → ((1 ≤ i) × (i ≤ 160)) ⊎ ((i < 1) ⊎ (160 < i))
in_range i = ground arith

get_ith-knowing :
    (n other : Node) (i : ℕ) (f : Finger)
    → get_ith (knowing n other).finger_table i ≡ ok f
    → f ≡ finger_to other
unfolding get_ith
get_ith-knowing n other i f h =
    let size = length-replicate 160 (finger_to other) in
    elim (in_range i) [
      | inl (lo, hi) ↦
          let entry = get_elem?-replicate 160 (i - 1) (finger_to other) (omega arith) in
          ground (arith, entry)
      | inr out ↦ ground (arith)
    ]

two_nodes-found :
    (a : String) (ln : LocalNode)
    → lookup a two_nodes ≡ some ln
    → (ln ≡ low_node) ⊎ (ln ≡ high_node)
unfolding lookup
two_nodes-found a ln h = elim (Bool-cases ("low" == a)) [
  | inl e ↦ let h' : some low_node ≡ some ln = rw e at h in inl (cc)
  | inr e ↦ elim (Bool-cases ("high" == a)) [
    | inl k ↦ let h' : some high_node ≡ some ln = rw (e, k) at h in inr (cc)
    | inr k ↦ let h' : none ≡ some ln = rw (e, k) at h in cc
  ]
]

low-there : lookup "low" two_nodes ≡ some low_node
unfolding lookup
low-there = refl

high-there : lookup "high" two_nodes ≡ some high_node
unfolding lookup
high-there = refl

named_by :
    (ln : LocalNode) (n other : LocalNode) (i : ℕ) (f : Finger)
    → ln ≡ knowing n.node other.node
    → get_ith ln.finger_table i ≡ ok f
    → lookup other.node.addr two_nodes ≡ some other
    → (next : LocalNode) × (lookup f.successor.addr two_nodes ≡ some next)
      × (next.node.id ≡ f.successor.id)
named_by ln n other i f e h there =
    let same : f ≡ finger_to other.node =
      get_ith-knowing n.node other.node i f
        (ap (λ (m : LocalNode). get_ith m.finger_table i) (sym e) ∙ h) in
    (other, rw same there, ap (λ (g : Finger). g.successor.id) (sym same))

two_nodes-IsRing : IsRing two_nodes
two_nodes-IsRing = record {
  whole = λ a ln h. elim (two_nodes-found a ln h) [
    | inl e ↦ ap (λ (m : LocalNode). length m.finger_table.table) e
    | inr e ↦ ap (λ (m : LocalNode). length m.finger_table.table) e
  ];
  named = λ a ln i f h g u. elim (two_nodes-found a ln h) [
    | inl e ↦ named_by ln low_node high_node i f e g high-there
    | inr e ↦ named_by ln high_node low_node i f e g low-there
  ];
}

route_ends_example :
    (m : LocalNode) × (route hash two_nodes 160 low_node zero_node.id ≡ ok (to_node m))
    × IsLast two_nodes zero_node.id m
route_ends_example =
    route_ends hash two_nodes two_nodes-IsRing zero_node.id 160 "low" low_node low-there
      (arc_bounds (key_to_id low.id) (key_to_id zero_node.id) (key_to_id-lt low.id)
        (key_to_id-lt zero_node.id)).1

announce_all-nearest_example :
    let p = (announce_all low_node (high ∷ node_at 130 "far" ∷ [])).predecessor in
    let self = key_to_id low.id in
    OneOf p (high ∷ node_at 130 "far" ∷ [])
    × All (λ m. behind self p ≤ behind self m) (high ∷ node_at 130 "far" ∷ [])
announce_all-nearest_example =
    announce_all-nearest low_node high (node_at 130 "far" ∷ []) refl (refl, (refl, tt))

-- The others answer a query of a predecessor with this node, and every other call succeeds.
abbrev naming : Node → Peers (Unit {0})
naming p = record {
  get_predecessor = λ n w. (ok p, w);
  set_predecessor = λ n m w. (ok tt, w);
  successor = λ n id w. (ok p, w);
}

abbrev at_40 : LocalNode
at_40 = knowing (node_at 40 "middle") high

places_differ : key_to_id low.id ≢ key_to_id at_40.node.id
unfolding key_to_id big_int big_int_from
places_differ = omega arith

high_differs : key_to_id high.id ≢ key_to_id (node_at 130 "far").id
unfolding key_to_id big_int big_int_from
high_differs = omega arith

abbrev at_130 : LocalNode
at_130 = knowing (node_at 130 "far") low

stabilize_overshoots_example :
    (f : Finger) × (get_ith (stabilize_with hash (naming high) at_130 low tt).1.finger_table 1
      ≡ ok f)
    × (f.successor ≡ high)
    × (arc (key_to_id at_130.node.id) (key_to_id low.id)
        < arc (key_to_id at_130.node.id) (key_to_id high.id))
unfolding key_to_id big_int big_int_from arc
stabilize_overshoots_example =
    stabilize_overshoots hash (naming high) at_130 low high tt tt refl refl high_differs
      (omega arith) (omega arith)

-- Behind `high` comes `low`, and behind any other node nobody.
abbrev behind_high : Node → Node
behind_high n = if n.addr == "" then low else zero_node

-- The other nodes, with the requests that they got
abbrev recording : Peers (List (Node × Node))
recording = record {
  get_predecessor = λ n w. (ok (behind_high n), w);
  set_predecessor = λ n m w. (ok tt, (n, m) ∷ w);
  successor = λ n id w. (ok n, w);
}

chain_loop_endless_example : chain_loop hash (naming low) 1000 at_40 high tt ≡ none
chain_loop_endless_example =
    chain_loop_endless hash (naming low) at_40 (λ n. low) (λ n w. refl) (λ n. refl) 1000 high tt

-- Every text decodes to `high`.
abbrev one_node : Gob
one_node = record {
  encode_node = λ n. some n.id;
  decode_node = λ b. (high, true);
  encode_id = λ id. some id;
  decode_id = λ b. some b;
}

abbrev announcement : Request
announcement = record { header = zero_header; method = set_predecessor_method; body = [] }
