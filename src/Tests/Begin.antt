-- ===== src/Tests/Begin.antt =====
-- The start of a client on a ring of two servers.
use peerstore.Base.{bytes_eq, [], ◌∷◌, Bytes}
use peerstore.Startup.{Drive}
use peerstore.Client.Params.{Flags}

abbrev flags : Flags
flags = record {
  peer_addr = "low";
  operation = "backup";
  local_path = "files";
  filename = "";
  filedest = "";
}

-- The file of the peer's public key
abbrev peer_text : Bytes
peer_text = 1 ∷ 2 ∷ 55 ∷ 3 ∷ []

abbrev drive : Drive
drive = ("peer.pem", peer_text) ∷ []
