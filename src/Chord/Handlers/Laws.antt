-- ===== src/Chord/Handlers/Laws.antt =====
-- A node that announces itself through the handler is the answer of the next query, if it was accepted.
use peerstore.Base.{◌≡◌, refl, some, Bytes, true, String, ◌⊎◌, inl, inr, [], ◌==◌, string_eq}
use peerstore.Base.Result.{ok, err, Error, new}
use peerstore.Models.Node.{Identifier, Node, zero_node}
use peerstore.Protocol.Message.{Request, zero_header, success, error_response}
use peerstore.Base.{Bool-cases}
use peerstore.Models.Node.{key_to_id}
use peerstore.Chord.Ring.{closer}
use peerstore.Chord.LocalNode.{LocalNode, set_predecessor}
use peerstore.Chord.Remote.{Gob, Peers}
use peerstore.Chord.Stabilize.{successor}
use peerstore.Chord.Handlers.{
  encoded, successor_handler, get_predecessor_handler, set_predecessor_handler,
}

set_predecessor-cases :
    (ln : LocalNode) (n : Node)
    → (set_predecessor ln n ≡ (ok tt, record ln { predecessor = n }))
      ⊎ ((e : Error) × (set_predecessor ln n ≡ (err e, ln)))
unfolding set_predecessor
set_predecessor-cases ln n = elim (Bool-cases (ln.predecessor.addr == "")) [
  | inl e ↦ inl (rw e)
  | inr e ↦
      elim (Bool-cases
        (closer (key_to_id ln.predecessor.id) (key_to_id n.id) (key_to_id ln.node.id))) [
          | inl c ↦ inl (rw (e, c))
          | inr c ↦ inr (new "not updating as new isn't between", rw (e, c))
        ]
]

-- A request that decodes to `n` either succeeds, and the next query of the predecessor answers `n`, or is
-- refused, and the node is as it was.
pub announced_or_refused :
    (gob : Gob) (ln : LocalNode) (r q : Request) (n : Node)
    → gob.decode_node r.body ≡ (n, true)
    → ((set_predecessor_handler gob ln r ≡ (
      record { header = zero_header; status = success; body = [] },
      record ln { predecessor = n },
    ))
        × (get_predecessor_handler gob (set_predecessor_handler gob ln r).1 q
            ≡ encoded (gob.encode_node n)))
      ⊎ (set_predecessor_handler gob ln r ≡ (error_response, ln))
unfolding set_predecessor_handler get_predecessor_handler
announced_or_refused gob ln r q n d = elim (set_predecessor-cases ln n) [
  | inl e ↦ inl (rw (d, e) refl, rw (d, e) refl)
  | inr (x, e) ↦ inr (rw (d, e))
]

-- A failed lookup is answered as a success, with the node that has no address.
pub successor_failure_hidden :
    {W : Type 0} (hash : String → Identifier) (others : Peers W) (gob : Gob) (ln : LocalNode)
    (r : Request) (id : Identifier) (w w' : W) (e : Error) (body : Bytes)
    → gob.decode_id r.body ≡ some id
    → successor hash others ln id w ≡ (err e, w')
    → gob.encode_node zero_node ≡ some body
    → successor_handler hash others gob ln r w
      ≡ (some (record { header = zero_header; status = success; body = body }), w')
unfolding successor_handler
successor_failure_hidden hash others gob ln r id w w' e body d s n = rw (d, s, n)
