-- ===== src/Startup/Host/Begins.antt =====
-- From the flags to the running server: `main` of cmd/peerstore/server/main.go after its key files, up to `Serve`.
use peerstore.Base.{String, arith, ◌≢◌, ◌≡◌, refl, ap, ◌∙◌, Option, some}
use peerstore.Base.Result.{Result, ok, err, panic}
use peerstore.Base.Act.{Act, ◌>>=◌}
use peerstore.Models.Node.{Identifier, Node, zero_node, PublicKey, PrivateKey}
use peerstore.Models.FingerTable.{Finger, get_ith, IsTable, new_finger_table, new_interval}
use peerstore.Models.FingerTable.Laws.{get_ith-set_ith, new_finger_table-IsTable}
use peerstore.Chord.Stabilize.Decision.{get_ith-set_successor}
use peerstore.Protocol.Message.{Request, Response}
use peerstore.Protocol.Server.{Server}
use peerstore.Chord.LocalNode.{LocalNode, new_local_node, set_successor, to_node}
use peerstore.Chord.Remote.{Peers}
use peerstore.Chord.Stabilize.{remote, start_node, initialize, dropping}
use peerstore.File.Handlers.{Files}
use peerstore.Startup.{
  Stat, validate_params, peer_of, peer_node, started, registration_request, start_server,
}
use peerstore.Startup.Host.{Host}

module _ {W : Type 0} (ask : String → Option PublicKey → Request → Act W Response)
    (sha1 : String → Identifier) (peers : Peers W) where
  -- An error of `NewLocalNode` is only logged: the node comes with it.
  abbrev joined : Server → Files → Result (Unit {0}) × LocalNode × W → Result (Host W) × W
  joined server files (ok _, ln, w) =
      (ok (record { server = server; files = files; ring = ln; others = w }), w)
  joined server files (err e, ln, w) =
      (ok (record { server = server; files = files; ring = ln; others = w }), w)
  joined server files (panic, ln, w) = (panic, w)

  -- `files` is what the data path holds.
  unfoldable pub start_host :
      Stat
      → Result (Unit {0})
      → String
      → String
      → String
      → PrivateKey
      → Option PublicKey
      → Files
      → Act W (Host W)
  start_host stat listens addr initial_peer_addr data_path key peer_key files =
      start_server ask sha1 stat listens addr initial_peer_addr data_path key peer_key
      >>= λ server w.
          joined server files
            (start_node sha1 peers key addr (peer_of sha1 addr initial_peer_addr peer_key) w)

pub new_local_node-fresh :
    (key : PrivateKey) (addr : String) (id : Identifier)
    → IsTable (new_local_node key addr id).finger_table
      × ((new_local_node key addr id).predecessor ≡ zero_node)
      × (to_node (new_local_node key addr id)
          ≡ record { id = id; addr = addr; public_key = some key.public })
unfolding new_local_node
new_local_node-fresh key addr id =
    let n : Node = record { id = id; addr = addr; public_key = some key.public } in
    let (ft, written, _, _, t) =
      get_ith-set_ith new_finger_table 1 (new_interval n n) n n new_finger_table-IsTable
        (omega arith) (omega arith) in
    rw written (t, refl, refl)

set_successor-same :
    (ln : LocalNode) (n : Node)
    → ((set_successor ln n).predecessor ≡ ln.predecessor)
      × (to_node (set_successor ln n) ≡ to_node ln)
unfolding set_successor
set_successor-same ln n = (ground arith, ground arith)

dropping-ok :
    {W : Type 0} (sha1 : String → Identifier) (peers : Peers W) (ln : LocalNode)
    (told : Result (Unit {0})) (w : W)
    → told ≢ panic
    → dropping sha1 peers ln (told, w) ≡ (ok tt, ln, w)
dropping-ok sha1 peers ln (ok _) w fine = refl
dropping-ok sha1 peers ln (err e) w fine = refl
dropping-ok sha1 peers ln panic w fine = absurd (fine refl)

initialize-named :
    {W : Type 0} (sha1 : String → Identifier) (peers : Peers W) (ln : LocalNode) (peer s : Node)
    (told : Result (Unit {0})) (w1 w2 w3 : W)
    → peers.successor (remote sha1 peers peer) ln.node.id w1 ≡ (ok s, w2)
    → peers.set_predecessor (remote sha1 peers s) (to_node (set_successor ln s)) w2 ≡ (told, w3)
    → told ≢ panic
    → initialize sha1 peers ln peer w1 ≡ (ok tt, set_successor ln s, w3)
unfolding initialize
initialize-named sha1 peers ln peer s told w1 w2 w3 named announced fine =
    rw (named, announced) (dropping-ok sha1 peers (set_successor ln s) told w3 fine)

-- A server whose parameters are valid and that can listen starts with a peer that answers its registration, names
-- its successor, and lets it announce itself there, with success or an error. It runs with the server of its key
-- and its peer, the files that are there, the named successor as its first finger, and no predecessor.
pub start_host-joins :
    {W : Type 0} (ask : String → Option PublicKey → Request → Act W Response)
    (sha1 : String → Identifier) (peers : Peers W) (stat : Stat)
    (addr initial_peer_addr data_path : String) (key : PrivateKey) (peer_key : PublicKey)
    (files : Files) (resp : Response) (s : Node) (told : Result (Unit {0})) (w w1 w2 w3 : W)
    → validate_params stat addr initial_peer_addr data_path ≡ ok tt
    → ask initial_peer_addr (some peer_key) (registration_request sha1 key addr) w ≡ (ok resp, w1)
    → peers.successor
        (remote sha1 peers (peer_node sha1 addr initial_peer_addr peer_key))
        (sha1 addr)
        w1
      ≡ (ok s, w2)
    → peers.set_predecessor
        (remote sha1 peers s)
        (record { id = sha1 addr; addr = addr; public_key = some key.public })
        w2
      ≡ (told, w3)
    → told ≢ panic
    → (h : Host W) × (f : Finger) × (start_host ask sha1 peers stat
          (ok tt)
          addr
          initial_peer_addr
          data_path
          key
          (some peer_key)
          files
          w
        ≡ (ok h, w3))
      × (h.server ≡ started sha1 key addr initial_peer_addr (some peer_key))
      × (h.files ≡ files)
      × (get_ith h.ring.finger_table 1 ≡ ok f)
      × (f.successor ≡ s)
      × (h.ring.predecessor ≡ zero_node)
unfolding start_host start_server start_node peer_node
start_host-joins {W} ask sha1 peers stat addr initial_peer_addr data_path key peer_key files resp s
      told w w1 w2 w3 valid asked named announced fine =
    let fresh = new_local_node key addr (sha1 addr) in
    let (whole, alone, own) = new_local_node-fresh key addr (sha1 addr) in
    let ln = set_successor fresh s in
    let (behind, same) = set_successor-same fresh s in
    let (f, first, is_s, _) = get_ith-set_successor fresh s whole in
    let peer = peer_node sha1 addr initial_peer_addr peer_key in
    let named' : peers.successor (remote sha1 peers peer) fresh.node.id w1 ≡ (ok s, w2) =
      ap (λ (n : Node). peers.successor (remote sha1 peers peer) n.id w1) own ∙ named in
    let announced' =
      ap (λ (n : Node). peers.set_predecessor (remote sha1 peers s) n w2) (same ∙ own)
      ∙ announced in
    let begun = initialize-named sha1 peers fresh peer s told w1 w2 w3 named' announced' fine in
    let host : Host W = record {
      server = started sha1 key addr initial_peer_addr (some peer_key);
      files = files;
      ring = ln;
      others = w3;
    } in
    (host, f, rw (valid, asked, begun), refl, refl, first, is_s, behind ∙ alone)
