-- ===== src/Protocol/Transport/Laws.antt =====
-- A transport without a connection.
use peerstore.Base.{◌≡◌, ◌⊎◌, inl, inr, refl, none, Bytes}
use peerstore.Base.Result.{Error, Result, ok, err, panic}
use peerstore.Protocol.Message.{Request}
use peerstore.Protocol.Envelope.{Suite, Entropy, encrypt_and_encode}
use peerstore.Protocol.Transport.{Socket, Transport, sent, round_trip}

module _ {W : Type 0} (c : Suite) (s : Socket W) where
  sent-unconnected :
      (t : Transport) (enc : Result Bytes) (w : W)
      → ((e : Error) × (sent c s t none enc w ≡ (err e, w))) ⊎ (sent c s t none enc w ≡ (panic, w))
  sent-unconnected t (ok wire) w = inr refl
  sent-unconnected t (err e) w = inl (_, refl)
  sent-unconnected t panic w = inr refl

  -- After a failed dial, and after `Close`, a round trip never succeeds and sends nothing: it is an error of
  -- the encryption or a panic.
  pub round_trip-unconnected :
      (e : Entropy) (t : Transport) (r : Request) (w : W)
      → t.conn ≡ none
      → ((x : Error) × (round_trip c s e t r w ≡ (err x, w)))
        ⊎ (round_trip c s e t r w ≡ (panic, w))
  unfolding round_trip
  round_trip-unconnected e t r w h = rw h (
      sent-unconnected t (encrypt_and_encode c c.request e r t.caller t.peer_key t.from t.self_key)
        w)
