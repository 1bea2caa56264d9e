-- ===== src/Client/Start/Registers.antt =====
-- The start of a client on a ring of servers that keep their own files.
use peerstore.Base.{
  String, string_eq, bytes_eq, nat_eq, ◌==◌, if◌then◌else◌, true, Option, none, some,
}
use peerstore.Base.Result.{ok, panic}
use peerstore.Base.Act.{Act}
use peerstore.Models.Node.{PublicKey}
use peerstore.Crypto.Pem.{Codec}
use peerstore.Protocol.Message.{Request, Response, error_response, user_registration_method}
use peerstore.Protocol.Server.{Server}
use peerstore.Protocol.Registration.{user_registration_handler}
use peerstore.Protocol.Registration.Nodes.{Ring, Places, calls}
use peerstore.Client.Requests.{Net}

module _ (p : Places) (codec : Codec) (asked : String) where
  abbrev s : Server
  s = p.server_at asked

  -- The peer at `asked` registers users; its requests go to the servers of the ring. The client sends nothing else
  -- at its start.
  abbrev at_server : String → Option PublicKey → Request → Act Ring Response
  at_server addr key r w =
      if r.method == user_registration_method
      then user_registration_handler codec (calls p) s r w
      else (ok error_response, w)

  abbrev sent : Option String → Option PublicKey → Request → Act Ring Response
  sent none key r w = (panic, w)
  sent (some addr) key r w = at_server addr key r w

  abbrev pub ring_net : Net Ring
  ring_net = record { dial = λ addr w. (true, w); trip = λ t r w. sent t.conn t.peer_key r w }
