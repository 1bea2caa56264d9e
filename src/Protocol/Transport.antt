-- ===== src/Protocol/Transport.antt =====
-- Connections of a client: protocol/transport.go. The socket is a parameter.
pub mod Laws
use peerstore.Base.{ℕ, String, Bool, true, false, Option, none, some, Bytes}
use peerstore.Base.Result.{Error, cause, Result, ok, err, panic, wrapping}
use peerstore.Base.Act.{Act}
use peerstore.Models.Node.{Identifier, PublicKey, PrivateKey}
use peerstore.Protocol.Message.{Request, Response, EncryptedMessage}
use peerstore.Protocol.Envelope.{Suite, Entropy, encrypt_and_encode, decrypt_and_decode_response}

-- `net.Dial`, and a write to and a read from the connection to an address
pub record Socket (W : Type 0) : Type 0 where
  pub dial : String → W → Bool × W
  pub write : String → Bytes → W → Bool × W
  pub read : String → W → Option Bytes × W

-- `Transport`. `conn` is the address at the other end: `none` for a connection that was not made, or that
-- `Close` has closed.
pub record Transport : Type 0 where
  pub caller : ℕ
  pub conn : Option String
  pub from : Identifier
  pub peer_key : Option PublicKey
  pub self_key : PrivateKey

-- `Close`
unfoldable pub close : Transport → Transport
close t = record t { conn = none }

abbrev dialled : String → Bool → Option String
dialled addr true = some addr
dialled addr false = none

abbrev dial_error : Bool → Option Error
dial_error true = none
dial_error false = some (cause "dial")

-- `NewTransport` returns the transport with and without an error.
unfoldable pub new_transport :
    {W : Type 0}
    → (String → W → Bool × W)
    → String
    → ℕ
    → Identifier
    → Option PublicKey
    → PrivateKey
    → W
    → (Transport × Option Error) × W
new_transport dial addr t id peer_key self_key w =
    let (made, w') = dial addr w in
    (
      (
        record {
          caller = t;
          conn = dialled addr made;
          from = id;
          peer_key = peer_key;
          self_key = self_key;
        },
        dial_error made,
      ),
      w',
    )

module _ {W : Type 0} (c : Suite) (s : Socket W) where
  abbrev response_of : Result (EncryptedMessage × Response × Bytes) → Result Response
  response_of (ok (em, resp, raw)) = ok resp
  response_of (err e) = err e
  response_of panic = panic

  -- A connection that ends before a message cannot be decoded.
  abbrev received : PrivateKey → Option Bytes × W → Result Response × W
  received key (none, w) = (
    wrapping "failure decoding response: "
        (wrapping "failed to decrypt response" (err (cause "gob"))),
    w,
  )
  received key (some wire, w) = (
    wrapping "failure decoding response: " (response_of (decrypt_and_decode_response c key wire)),
    w,
  )

  abbrev written : PrivateKey → String → Bool × W → Result Response × W
  written key addr (false, w) = (
    wrapping "failure encoding request: "
        (wrapping "failure encoding request: " (err (cause "gob"))),
    w,
  )
  written key addr (true, w) = received key (s.read addr w)

  -- Writing to a nil connection is a panic.
  abbrev sent : Transport → Option String → Result Bytes → W → Result Response × W
  sent t conn (err e) w = (wrapping "failure encoding request: " (err e), w)
  sent t conn panic w = (panic, w)
  sent t none (ok wire) w = (panic, w)
  sent t (some addr) (ok wire) w = written t.self_key addr (s.write addr wire w)

  -- `RoundTrip`; `e` is what the encryption draws.
  unfoldable pub round_trip : Entropy → Transport → Request → Act W Response
  round_trip e t request w =
      sent t t.conn (encrypt_and_encode c c.request e request t.caller t.peer_key t.from t.self_key)
        w
