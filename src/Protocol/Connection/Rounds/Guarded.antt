-- ===== src/Protocol/Connection/Rounds/Guarded.antt =====
-- Invariants of the server's state over one connection.
use peerstore.Base.{ℕ, ◌≡◌, refl, Option, none, some, List, [], ◌∷◌, ◌++◌, Bytes}
use peerstore.Base.Result.{Result, ok, err, panic}
use peerstore.Models.Node.{PrivateKey}
use peerstore.Crypto.Pem.{Codec}
use peerstore.Protocol.Message.{Request, Response, EncryptedMessage}
use peerstore.Protocol.Envelope.{Suite, Entropy, decrypt_and_decode_request}
use peerstore.Protocol.Server.{Server}
use peerstore.Protocol.Connection.{
  Lookups, Handler, Verdict, admitted, refused, Turn, next, closed, crashed, stuck, written,
  handled, admit, dispatch, accepts, handle_request,
}
use peerstore.Protocol.Connection.Rounds.{Round, continued, received, handle_connection}

-- A state that a round or a connection leaves satisfies `I`.
abbrev pub Leaving : {W : Type 0} → (W → Type 0) → Turn W → Type 0
Leaving I (next w b) = I w
Leaving I (closed w b) = I w
Leaving I crashed = Unit
Leaving I stuck = Unit

-- Every message that a round carries for this key is a request of `P`.
abbrev pub Carries : Suite → PrivateKey → (Request → Type 0) → List Round → Type 0
Carries c key P [] = Unit
Carries c key P (x ∷ xs) =
    ((em : EncryptedMessage) (r : Request) (raw : Bytes)
      → decrypt_and_decode_request c key x.wire ≡ ok (em, r, raw)
      → P r)
    × Carries c key P xs

-- The handlers keep `I` on the requests of `P` that some round admits.
abbrev pub KeepsAdmitted :
    {W : Type 0}
    → Suite
    → Codec
    → (W → Server)
    → (ℕ → Option (Handler W))
    → (Request → Type 0)
    → (W → Type 0)
    → Type 0
KeepsAdmitted {W} c codec server_of handlers P I =
    (h : Handler W) (out : Lookups) (em : EncryptedMessage) (e : Entropy) (r : Request)
    (raw : Bytes) (before : List Bytes) (w w' : W) (resp : Response)
    → P r
    → handlers r.method ≡ some h
    → accepts c codec out (server_of w) em e r raw ≡ admitted before
    → h em.header.pub_key r w ≡ ok (w', resp)
    → I w
    → I w'

module _ (c : Suite) (codec : Codec) {W : Type 0} (server_of : W → Server)
    (handlers : ℕ → Option (Handler W)) (P : Request → Type 0) (I : W → Type 0)
    (keeps : KeepsAdmitted c codec server_of handlers P I) where
  module _ (out : Lookups) (s : Server) (em : EncryptedMessage) (r : Request) (raw : Bytes) where
    written-Leaving :
        (w : W) (before : List Bytes) (b : Result Bytes)
        → I w
        → Leaving I (written c codec out s em w before b)
    written-Leaving w before (ok b) i = i
    written-Leaving w before (err e) i = i
    written-Leaving w before panic i = tt

    handled-Leaving :
        (e : Entropy) (before : List Bytes) (x : Result (W × Response))
        → ((w' : W) (resp : Response) → x ≡ ok (w', resp) → I w')
        → Leaving I (handled c codec out s em e before x)
    handled-Leaving e before (ok (w', resp)) i = written-Leaving w' before _ (i w' resp refl)
    handled-Leaving e before (err x) i = tt
    handled-Leaving e before panic i = tt

    admit-Leaving :
        (e e' : Entropy) (h : Handler W) (w : W) (v : Verdict)
        → server_of w ≡ s
        → P r
        → handlers r.method ≡ some h
        → accepts c codec out s em e r raw ≡ v
        → I w
        → Leaving I (admit c codec out s em e' h r w v)
    admit-Leaving e e' h w (admitted before) same p k a i =
        handled-Leaving e' before (h em.header.pub_key r w)
          λ w' resp x. keeps h out em e r raw before w w' resp p k (rw same a) x i
    admit-Leaving e e' h w (refused before) same p k a i = i
    admit-Leaving e e' h w Verdict.crashed same p k a i = tt
    admit-Leaving e e' h w Verdict.stuck same p k a i = tt

    dispatch-Leaving :
        (e e' : Entropy) (o : Option (Handler W)) (w : W)
        → server_of w ≡ s
        → P r
        → handlers r.method ≡ o
        → I w
        → Leaving I (dispatch c codec out s em e e' o r raw w)
    dispatch-Leaving e e' none w same p k i = written-Leaving w [] _ i
    dispatch-Leaving e e' (some h) w same p k i = admit-Leaving e e' h w _ same p k refl i

  -- What the rest of the connection leaves
  continued-Leaving :
      (before : List Bytes) (more : W → List Bytes → Turn W) (t : Turn W)
      → ((w : W) (sent : List Bytes) → I w → Leaving I (more w sent))
      → Leaving I t
      → Leaving I (continued before more t)
  continued-Leaving before more (next w b) h i = h w (before ++ b) i
  continued-Leaving before more (closed w b) h i = i
  continued-Leaving before more crashed h i = tt
  continued-Leaving before more stuck h i = tt

  received-Leaving :
      (x : Round) (w : W) (before : List Bytes) (more : W → List Bytes → Turn W)
      (d : Result (EncryptedMessage × Request × Bytes))
      → ((em : EncryptedMessage) (r : Request) (raw : Bytes) → d ≡ ok (em, r, raw) → P r)
      → ((w' : W) (sent : List Bytes) → I w' → Leaving I (more w' sent))
      → I w
      → Leaving I (received c codec server_of handlers x w before more d)
  unfolding handle_request
  received-Leaving x w before more (ok (em, r, raw)) p h i = continued-Leaving before more _ h (
      dispatch-Leaving x.out (server_of w) em r raw x.guards x.handler (handlers r.method) w refl
        (p em r raw refl) refl i)
  received-Leaving x w before more (err e) p h i = i
  received-Leaving x w before more panic p h i = tt

  -- A property of the server's state that fixes the server's key, and that the handlers keep whenever they run on a
  -- request of a class that is admitted, holds after a connection whose messages are requests of the class if it held
  -- before, whatever the server's own requests yield: no refused or undecodable message changes the state.
  pub connection_guarded :
      (key : PrivateKey) (xs : List Round) (w : W) (before : List Bytes)
      → ((v : W) → I v → (server_of v).private_key ≡ key)
      → Carries c key P xs
      → I w
      → Leaving I (handle_connection c codec server_of handlers xs w before)
  unfolding handle_connection
  connection_guarded key [] w before k p i = i
  connection_guarded key (x ∷ xs) w before k p i =
      received-Leaving x w before _ _ (λ em r raw d. p.0 em r raw (rw (← k w i) d))
        (λ w' sent i'. connection_guarded key xs w' sent k p.1 i') i
