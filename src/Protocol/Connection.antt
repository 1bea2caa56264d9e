-- ===== src/Protocol/Connection.antt =====
-- One request on a connection: the loop body of `handleConnection` of protocol/server.go, once the request is
-- decrypted. `accepts` authenticates the caller, and `handle_request` runs the handler and replies.
pub mod Access
pub mod Users
pub mod Rounds
use peerstore.Base.{
  ℕ, String, Bool, Option, none, some, List, [], ◌∷◌, ◌++◌, Bytes, if◌then◌else◌, ◌==◌, nat_eq,
}
use peerstore.Base.Result.{Error, Result, ok, err, panic}
use peerstore.Models.Node.{Identifier, PublicKey, PrivateKey, Node}
use peerstore.Crypto.Rsa.{Rsa, verify}
use peerstore.Crypto.Pem.{Codec, read_public_key}
use peerstore.Protocol.Message.{
  Request, Response, EncryptedMessage, zero_header, error_response, user_type, node_type,
}
use peerstore.Protocol.Message.{
  user_registration_method, node_registration_method, get_successor_method,
}
use peerstore.Protocol.Message.{get_public_key_method}
use peerstore.Protocol.Envelope.{Suite, Entropy, encrypt_and_encode}
use peerstore.Protocol.Server.{Server, get_trusted_node}

-- The requests that the server itself sends: `NewTransport` and `RoundTrip`, to an address and encrypted for
-- a key, and `encoding/gob` on what they carry. Only the answers are here: what the requests change, on this server
-- too, is in Protocol.Rpc, and comes as messages of their own in Startup.Host.
pub record Lookups : Type 0 where
  pub ask : String → Option PublicKey → Request → Result Response
  pub encode_id : Identifier → Bytes
  pub decode_node : Bytes → Option Node

-- `admitted`: on to the handler; `refused`: the connection ends; each with what was written so far.
-- `crashed` ends the program, `stuck` does not return.
pub data Verdict : Type 0 where
  admitted : List Bytes → Verdict
  refused : List Bytes → Verdict
  crashed : Verdict
  stuck : Verdict

pub data Turn (W : Type 0) : Type 0 where
  next : W → List Bytes → Turn W
  closed : W → List Bytes → Turn W
  crashed : Turn W
  stuck : Turn W

-- A handler gets the key of the message and the request. `W` is all that handlers change.
abbrev pub Handler : Type 0 → Type 0
Handler W = Option PublicKey → Request → W → Result (W × Response)

module _ (c : Suite) (codec : Codec) (out : Lookups) (s : Server) (em : EncryptedMessage) where
  -- A reply, encrypted for the key that the message carries; an error is dropped.
  abbrev pub reply : Entropy → Response → Result Bytes
  reply e resp =
      encrypt_and_encode c c.response e resp node_type em.header.pub_key s.id s.private_key

  abbrev pub refusing : Result Bytes → Verdict
  refusing (ok b) = refused (b ∷ [])
  refusing (err _) = refused []
  refusing panic = crashed

  abbrev passing : Result Bytes → Verdict
  passing (ok b) = admitted (b ∷ [])
  passing (err _) = admitted []
  passing panic = crashed

  abbrev pub user_signature : Result (Unit {0}) → Verdict
  user_signature (ok _) = admitted []
  user_signature (err _) = refused []
  user_signature panic = crashed

  abbrev pub user_key : Bytes → Option (Result PublicKey) → Verdict
  user_key raw none = stuck
  user_key raw (some (ok key)) = user_signature (verify c.rsa (some key) em.header.signature raw)
  user_key raw (some (err _)) = refused []
  user_key raw (some panic) = crashed

  abbrev pub user_file : Bytes → Result Response → Verdict
  user_file raw (ok resp) = user_key raw (read_public_key codec resp.body)
  user_file raw (err _) = refused []
  user_file raw panic = crashed

  abbrev pub key_request : Request → Request
  key_request r = record {
    header = record zero_header { key = r.header.from; from = s.id };
    method = get_public_key_method;
    body = [];
  }

  -- The identifier in the body is the header's `Key`, not the user's.
  abbrev pub successor_request : Request → Request
  successor_request r = record {
    header = record zero_header { key = r.header.from; from = s.id };
    method = get_successor_method;
    body = out.encode_id r.header.key;
  }

  abbrev pub user_node : Request → Bytes → Option Node → Verdict
  user_node r raw none = refused []
  user_node r raw (some n) = user_file raw (out.ask n.addr n.public_key (key_request r))

  abbrev pub user_successor : Request → Bytes → Result Response → Verdict
  user_successor r raw (ok resp) = user_node r raw (out.decode_node resp.body)
  user_successor r raw (err _) = refused []
  user_successor r raw panic = crashed

  -- The server asks itself which node has the public key of the user, and that node for the key.
  unfoldable pub user_accepts : Request → Bytes → Verdict
  user_accepts r raw =
      user_successor r raw (out.ask s.addr (some s.private_key.public) (successor_request r))

  abbrev pub node_signature : Entropy → Result (Unit {0}) → Verdict
  node_signature e (ok _) = admitted []
  node_signature e (err _) = refusing (reply e error_response)
  node_signature e panic = crashed

  -- The key that verifies is the message's, not the one of the trusted node.
  abbrev pub node_known : Entropy → Bytes → Result Node → Verdict
  node_known e raw (err _) = refusing (reply e error_response)
  node_known e raw (ok n) =
      node_signature e (verify c.rsa em.header.pub_key em.header.signature raw)
  node_known e raw panic = crashed

  -- The `switch` on the caller type, whose default case falls through to the handler
  unfoldable pub accepts : Entropy → Request → Bytes → Verdict
  accepts e r raw =
      if em.header.caller == user_type
      then (if r.method == user_registration_method then admitted [] else user_accepts r raw)
      else if em.header.caller == node_type
      then (if r.method == node_registration_method
          then admitted []
          else node_known e raw (get_trusted_node s r.header.from))
      else passing (reply e error_response)

  module _ {W : Type 0} where
    abbrev written : W → List Bytes → Result Bytes → Turn W
    written w before (ok b) = next w (before ++ (b ∷ []))
    written w before (err _) = next w before
    written w before panic = crashed

    abbrev handled : Entropy → List Bytes → Result (W × Response) → Turn W
    handled e before (ok (w, resp)) = written w before (reply e resp)
    handled e before (err _) = crashed
    handled e before panic = crashed

    abbrev admit : Entropy → Handler W → Request → W → Verdict → Turn W
    admit e h r w (admitted before) = handled e before (h em.header.pub_key r w)
    admit e h r w (refused before) = closed w before
    admit e h r w crashed = crashed
    admit e h r w stuck = stuck

    abbrev dispatch : Entropy → Entropy → Option (Handler W) → Request → Bytes → W → Turn W
    dispatch e e' none r raw w = written w [] (reply e error_response)
    dispatch e e' (some h) r raw w = admit e' h r w (accepts e r raw)

    -- `e` and `e'` are what the reply of the guards and the handler's reply draw.
    unfoldable pub handle_request :
        Entropy → Entropy → (ℕ → Option (Handler W)) → Request → Bytes → W → Turn W
    handle_request e e' handlers r raw w = dispatch e e' (handlers r.method) r raw w
