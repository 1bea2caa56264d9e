-- ===== src/Protocol/Server/Responds.antt =====
-- The replies of the handlers of protocol/handler.go, as messages.
use peerstore.Base.{arith}
use peerstore.Base.Result.{Result, ok, err, panic}
use peerstore.Crypto.Pem.{Codec}
use peerstore.Crypto.Rsa.{Rsa}
use peerstore.Protocol.Message.{Request, Response, IsResponse, validate_response}
use peerstore.Protocol.Server.{
  Server, Gob, Reply, registration_reply, node_registration_handler, node_trust_handler,
}
use peerstore.Protocol.Registration.{Calls, user_registration_handler}

-- The response of a reply passes `Validate`.
abbrev pub Replies : Reply → Type 0
Replies (ok (s, resp)) = IsResponse resp
Replies (err e) = Unit
Replies panic = Unit

module _ (c : Rsa) (gob : Gob) where
  -- Each reply of the two handlers for nodes passes the client's validation.
  pub node_handlers-Replies :
      (s : Server) (r : Request)
      → Replies (node_registration_handler c gob s r) × Replies (node_trust_handler c gob s r)
  unfolding node_registration_handler node_trust_handler validate_response registration_reply
  node_handlers-Replies s r = (ground arith, ground arith)

-- A response, where there is one, passes `Validate`.
abbrev pub Yields : Result Response → Type 0
Yields (ok resp) = IsResponse resp
Yields (err e) = Unit
Yields panic = Unit

-- Each response to the registration of a user passes the client's validation.
pub user_registration_handler-Yields :
    {W : Type 0} (codec : Codec) (out : Calls W) (s : Server) (r : Request) (w : W)
    → Yields (user_registration_handler codec out s r w).0
unfolding user_registration_handler validate_response
user_registration_handler-Yields codec out s r w = ground arith
