-- ===== src/Startup/Peer.antt =====
-- The start of a server with its peer, which runs the registration handler of protocol/handler.go.
use peerstore.Base.{String, bytes_eq, Option}
use peerstore.Base.Result.{cause, Result, ok, err, panic}
use peerstore.Base.Act.{Act}
use peerstore.Models.Node.{PublicKey}
use peerstore.Crypto.Rsa.{Rsa}
use peerstore.Protocol.Message.{Request, Response}
use peerstore.Protocol.Server.{Server, Gob, node_registration_handler}

-- A handler that panics ends the peer.
abbrev answered : Server → Result (Server × Response) → Result Response × Server
answered p (ok (p', resp)) = (ok resp, p')
answered p (err e) = (err e, p)
answered p panic = (err (cause "EOF"), p)

-- The peer's registration handler behind every connection
abbrev pub ask_peer : Rsa → Gob → String → Option PublicKey → Request → Act Server Response
ask_peer c gob addr key r p = answered p (node_registration_handler c gob p r)
