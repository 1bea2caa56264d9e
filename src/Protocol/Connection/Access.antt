-- ===== src/Protocol/Connection/Access.antt =====
-- Whose requests reach a handler.
use peerstore.Base.{
  ℕ, ◌≡◌, ◌≢◌, ◌↔◌, ◌⊎◌, inl, inr, refl, sym, ◌∙◌, arith, Option, some, List, [], ◌∷◌, Bytes, ◌==◌,
  nat_eq,
}
use peerstore.Base.{false}
use peerstore.Base.Result.{Error, Result, ok, err, panic}
use peerstore.Models.Node.{Node}
use peerstore.Crypto.Rsa.{verify}
use peerstore.Crypto.Pem.{Codec}
use peerstore.Protocol.Message.{
  Request, Response, EncryptedMessage, error_response, user_type, node_type,
}
use peerstore.Protocol.Message.{node_registration_method}
use peerstore.Protocol.Envelope.{Suite, Entropy}
use peerstore.Protocol.Server.{Server, get_trusted_node}
use peerstore.Protocol.Connection.{Lookups, admitted, next, closed, Handler}
use peerstore.Protocol.Connection.{
  reply, accepts, handle_request, refusing, node_signature, node_known,
}

module _ (c : Suite) (codec : Codec) (out : Lookups) (s : Server) (em : EncryptedMessage)
    (r : Request) (raw : Bytes) where
  accepts-node :
      (e : Entropy)
      → em.header.caller ≡ node_type
      → r.method ≢ node_registration_method
      → accepts c codec out s em e r raw
        ≡ node_known c codec out s em e raw (get_trusted_node s r.header.from)
  unfolding accepts
  accepts-node e t m =
      let other : (r.method == node_registration_method) ≡ false = ground arith in rw (t, other)

  refusing-shut :
      (b : Result Bytes) (before : List Bytes) → refusing c codec out s em b ≡ admitted before → ⊥
  refusing-shut (ok b) before h = cc
  refusing-shut (err e) before h = cc
  refusing-shut panic before h = cc

  node_signature-admitted :
      (e : Entropy) (v : Result (Unit {0}))
      → node_signature c codec out s em e v ≡ admitted []
      → v ≡ ok tt
  node_signature-admitted e (ok _) h = refl
  node_signature-admitted e (err _) h = absurd (refusing-shut _ _ h)
  node_signature-admitted e panic h = cc

  node_known-admitted :
      (e : Entropy) (found : Result Node)
      → node_known c codec out s em e raw found ≡ admitted []
      → ((n : Node) × (found ≡ ok n))
        × (verify c.rsa em.header.pub_key em.header.signature raw ≡ ok tt)
  node_known-admitted e (ok n) h = ((n, refl), node_signature-admitted e _ h)
  node_known-admitted e (err _) h = absurd (refusing-shut _ _ h)
  node_known-admitted e panic h = cc

  -- A request in the name of a node, other than a registration, reaches the handler, and then with nothing
  -- written before, exactly when its sender is a trusted node and its signature verifies with the key that the
  -- message carries.
  pub node_admitted_iff :
      (e : Entropy)
      → em.header.caller ≡ node_type
      → r.method ≢ node_registration_method
      → (accepts c codec out s em e r raw ≡ admitted []) ↔ (
          ((n : Node) × (get_trusted_node s r.header.from ≡ ok n))
          × (verify c.rsa em.header.pub_key em.header.signature raw ≡ ok tt))
  node_admitted_iff e t m =
      let through = accepts-node e t m in
      (
        λ h. node_known-admitted e (get_trusted_node s r.header.from) (sym through ∙ h),
        λ h. let ((n, known), verified) = h in through ∙ rw (known, verified),
      )

  -- A request in the name of a node, for a method that has a handler and is no registration, whose
  -- sender is not trusted or whose signature does not verify, gets the error reply, if that can be
  -- encrypted, and the connection is closed: no handler runs, so nothing changes.
  pub unproven_node_closed :
      {W : Type 0} (e e' : Entropy) (handlers : ℕ → Option (Handler W)) (h : Handler W) (w : W)
      (x : Error) (b : Bytes)
      → em.header.caller ≡ node_type
      → r.method ≢ node_registration_method
      → handlers r.method ≡ some h
      → (get_trusted_node s r.header.from ≡ err x)
        ⊎ (((n : Node) × (get_trusted_node s r.header.from ≡ ok n))
            × (verify c.rsa em.header.pub_key em.header.signature raw ≡ err x))
      → reply c codec out s em e error_response ≡ ok b
      → handle_request c codec out s em e e' handlers r raw w ≡ closed w (b ∷ [])
  unfolding handle_request
  unproven_node_closed e e' handlers h w x b t m known (inl untrusted) sent =
      rw (known, accepts-node e t m, untrusted, sent)
  unproven_node_closed e e' handlers h w x b t m known (inr ((n, trusted), unverified)) sent =
      rw (known, accepts-node e t m, trusted, unverified, sent)

  -- A request whose caller type names neither a user nor a node gets an error reply, and its
  -- handler runs all the same, with no check of the sender or of a signature. Its reply follows, if
  -- both can be encrypted.
  pub other_callers_run :
      {W : Type 0} (e e' : Entropy) (handlers : ℕ → Option (Handler W)) (h : Handler W) (w w' : W)
      (resp : Response) (first second : Bytes)
      → em.header.caller ≢ user_type
      → em.header.caller ≢ node_type
      → handlers r.method ≡ some h
      → h em.header.pub_key r w ≡ ok (w', resp)
      → reply c codec out s em e error_response ≡ ok first
      → reply c codec out s em e' resp ≡ ok second
      → handle_request c codec out s em e e' handlers r raw w ≡ next w' (first ∷ second ∷ [])
  unfolding handle_request accepts
  other_callers_run e e' handlers h w w' resp first second u n known ran one two =
      let user : (em.header.caller == user_type) ≡ false = ground arith in
      let node : (em.header.caller == node_type) ≡ false = ground arith in
      rw (known, user, node, one, ran, two)
