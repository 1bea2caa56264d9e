-- ===== src/Protocol/Server/Concurrent.antt =====
-- Registrations of nodes by several workers. NodeRegistrationHandler of protocol/handler.go looks the identifier up
-- under the map's lock, releases it, and takes it again to add the node; other workers run in between.
-- NodeTrustHandler adds no node.
use peerstore.Base.{◌≡◌, ◌≢◌, refl, subst, Bytes, bytes_eq, List, [], ◌∷◌, ◌++◌}
use peerstore.Base.Dict.{lookup-insert_self, lookup-insert_ne}
use peerstore.Base.Result.{Error, Result, ok, err, panic}
use peerstore.Models.Node.{Identifier, Node}
use peerstore.Crypto.Rsa.{Rsa, sign}
use peerstore.Protocol.Message.{Request, Response}
use peerstore.Protocol.Server.{
  Server, Gob, add_trusted_node, get_trusted_node, requester, node_registration_handler, registered,
}

-- `adding` are the registrations whose workers have found the identifier unknown and have yet to add the node.
pub record Registering : Type 0 where
  pub server : Server
  pub adding : List Request

-- A worker on a known identifier answers with an error. What a worker does after it has added the node, the signature
-- and the list of nodes for its answer, changes nothing.
pub data Step : Registering → Registering → Type 0 where
  finds_known :
      (s : Registering) (r : Request) (n : Node)
      → get_trusted_node s.server r.header.from ≡ ok n
      → Step s s
  finds_unknown :
      (s : Registering) (r : Request) (e : Error)
      → get_trusted_node s.server r.header.from ≡ err e
      → Step s (record s { adding = r ∷ s.adding })
  adds :
      (s : Registering) (r : Request) (before after : List Request)
      → s.adding ≡ before ++ r ∷ after
      → Step s
          (record { server = add_trusted_node (requester r) s.server; adding = before ++ after })

pub data Steps : Registering → Registering → Type 0 where
  done : (s : Registering) → Steps s s
  step : {s t u : Registering} → Step s t → Steps t u → Steps s u

-- No worker is about to add a node under the identifier.
abbrev pub NoneAdds : Identifier → List Request → Type 0
NoneAdds id [] = Unit
NoneAdds id (r ∷ rs) = (r.header.from ≢ id) × NoneAdds id rs

NoneAdds-without :
    (id : Identifier) (before : List Request) (r : Request) (after : List Request)
    → NoneAdds id (before ++ r ∷ after)
    → (r.header.from ≢ id) × NoneAdds id (before ++ after)
NoneAdds-without id [] r after h = h
NoneAdds-without id (q ∷ before) r after (here, later) =
    let (other, rest) = NoneAdds-without id before r after later in (other, (here, rest))

abbrev Settled : Identifier → Node → Registering → Type 0
Settled id n s = (get_trusted_node s.server id ≡ ok n) × NoneAdds id s.adding

Step-Settled :
    (id : Identifier) (n : Node) (s t : Registering) → Step s t → Settled id n s → Settled id n t
unfolding get_trusted_node add_trusted_node
Step-Settled id n s t (finds_known _ r m e) h = h
Step-Settled id n s t (finds_unknown _ r e unknown) (trusted, none_adds) =
    let other : r.header.from ≢ id = λ same.
      (let both : get_trusted_node s.server r.header.from ≡ ok n = rw same trusted in
        cc (both, unknown)) in
    (trusted, (other, none_adds))
Step-Settled id n s t (adds _ r before after e) (trusted, none_adds) =
    let (other, rest) = NoneAdds-without id before r after (subst (NoneAdds id) e none_adds) in
    (
      rw (lookup-insert_ne r.header.from id (requester r) s.server.trusted_nodes other) trusted,
      rest,
    )

-- However the workers follow one another from then on, a node that is trusted under an identifier stays so, with the
-- same address and key, if no worker that has found the identifier unknown has yet to add a node under it; and none
-- comes to be in that place.
pub trusted_stays :
    (id : Identifier) (n : Node) (s t : Registering)
    → Steps s t
    → get_trusted_node s.server id ≡ ok n
    → NoneAdds id s.adding
    → (get_trusted_node t.server id ≡ ok n) × NoneAdds id t.adding
trusted_stays id n s t (done _) trusted none_adds = (trusted, none_adds)
trusted_stays id n s t (step {t = u} one rest) trusted none_adds =
    let (still, none_then) = Step-Settled id n s u one (trusted, none_adds) in
    trusted_stays id n u t rest still none_then

added :
    (s : Server) (r : Request)
    → get_trusted_node (add_trusted_node (requester r) s) r.header.from ≡ ok (requester r)
unfolding get_trusted_node add_trusted_node
added s r = rw (lookup-insert_self r.header.from (requester r) s.trusted_nodes)

-- Two registrations of one unknown identifier can both find it unknown: the first to add its node is trusted, and the
-- second then takes the identifier over.
pub registrations_race :
    (s : Server) (r q : Request) (e : Error)
    → get_trusted_node s r.header.from ≡ err e
    → q.header.from ≡ r.header.from
    → (t u : Registering) × Steps (record { server = s; adding = [] }) t
      × (get_trusted_node t.server r.header.from ≡ ok (requester r))
      × Steps t u
      × (get_trusted_node u.server r.header.from ≡ ok (requester q))
      × (u.adding ≡ [])
registrations_race s r q e unknown same =
    let later = add_trusted_node (requester r) s in
    let last = add_trusted_node (requester q) later in
    (
      record { server = later; adding = q ∷ [] },
      record { server = last; adding = [] },
      step (finds_unknown (record { server = s; adding = [] }) r e unknown) (
          step (finds_unknown (record { server = s; adding = r ∷ [] }) q e (rw same unknown)) (
            step (adds (record { server = s; adding = q ∷ (r ∷ []) }) r (q ∷ []) [] refl)
              (done _))),
      added s r,
      step (adds (record { server = later; adding = q ∷ [] }) q [] [] refl) (done _),
      subst (λ (id : Identifier). get_trusted_node last id ≡ ok (requester q)) same (added later q),
      refl,
    )

registered-server :
    (c : Rsa) (gob : Gob) (by : Identifier) (s s' : Server) (resp : Response)
    (signature : Result Bytes)
    → registered c gob by s signature ≡ ok (s', resp)
    → s ≡ s'
registered-server c gob by s s' resp (ok signature) h = cc
registered-server c gob by s s' resp (err e) h = cc
registered-server c gob by s s' resp panic h = cc

-- The handler with no other worker in between is a run of such steps.
pub registration_alone :
    (c : Rsa) (gob : Gob) (s s' : Server) (r : Request) (e : Error) (resp : Response)
    → get_trusted_node s r.header.from ≡ err e
    → node_registration_handler c gob s r ≡ ok (s', resp)
    → Steps (record { server = s; adding = [] }) (record { server = s'; adding = [] })
unfolding node_registration_handler
registration_alone c gob s s' r e resp unknown answered =
    let later = add_trusted_node (requester r) s in
    let accepted : registered c gob s.id later
          (sign c s.private_key (gob.encode_key r.header.pub_key))
        ≡ ok (s', resp) =
      rw unknown at answered in
    subst
      (λ (v : Server).
        Steps (record { server = s; adding = [] }) (record { server = v; adding = [] }))
      (registered-server c gob s.id later s' resp _ accepted)
      (step (finds_unknown (record { server = s; adding = [] }) r e unknown)
        (step (adds (record { server = s; adding = r ∷ [] }) r [] [] refl) (done _)))
