-- ===== src/Client/Files/Settled.antt =====
-- `Synchronize` of a client whose own log is the remote one.
use peerstore.Base.{ℕ, zero, suc, replicate, ◌≡◌, refl, String, string_eq, some, List, [], ◌∷◌, All}
use peerstore.Base.Dict.{lookup}
use peerstore.Base.Result.{ok}
use peerstore.Models.Node.{Identifier, PrivateKey, Node}
use peerstore.Models.TransactionLog.{Entry, Entity, TransactionLog}
use peerstore.Client.Requests.{Net, Machine, Codecs}
use peerstore.Client.Log.{get_transaction_log}
use peerstore.Client.Sync.{last_entry}
use peerstore.Client.Sync.Laws.{sync_action-same}
use peerstore.Client.Files.{walk, resources, synchronize, on_events, polled}

-- A local file that the log has
abbrev pub Logged : TransactionLog → String → Type 0
Logged tl path = (v : Entity) × (lookup path tl ≡ some v)

-- A resource of the log with an entry, found under its path
abbrev pub Recorded : TransactionLog → String × Entity → Type 0
Recorded tl (path, v) = (lookup path tl ≡ some v) × (e : Entry) × (last_entry v.entries ≡ some e)

module _ {W : Type 0} (net : Net W) (disk : Machine W) (g : Codecs) (local_path : String → String)
    (self : PrivateKey) (client : Identifier) where
  walk-Logged :
      (peer : Node) (tl : TransactionLog) (paths : List String) (w : W)
      → All (Logged tl) paths
      → walk net disk g local_path self client peer tl paths w ≡ (ok tt, w)
  unfolding walk
  walk-Logged peer tl [] w h = refl
  walk-Logged peer tl (path ∷ paths) w ((v, e), h) = rw e (walk-Logged peer tl paths w h)

  resources-Recorded :
      (peer : Node) (tl : TransactionLog) (rest : List (String × Entity)) (w : W)
      → All (Recorded tl) rest
      → resources net disk g local_path self client peer tl rest w ≡ (ok tt, w)
  unfolding resources
  resources-Recorded peer tl [] w h = refl
  resources-Recorded peer tl ((path, v) ∷ rest) w ((found, e, last), h) =
      rw (found, sync_action-same v e last) (resources-Recorded peer tl rest w h)

  -- Over any network and with any local files: where the remote log is the client's own, all local files are in
  -- it, and each of its resources has an entry, `Synchronize` returns the log, and does nothing but to read it.
  pub synchronize_settled :
      (paths : List String) (peer : Node) (tl : TransactionLog) (w w' : W)
      → get_transaction_log net g client peer self.public self w ≡ (ok tl, w')
      → All (Logged tl) paths
      → All (Recorded tl) tl
      → synchronize net disk g local_path self client paths peer tl w ≡ (ok tl, w')
  unfolding synchronize
  synchronize_settled paths peer tl w w' got walked recorded =
      rw (got, walk-Logged peer tl paths w' walked, resources-Recorded peer tl tl w' recorded)

  -- Where further the network gives the same log whenever it is asked and the client is in the same state, any number
  -- of polls does nothing but to read the log.
  on_events-polls :
      (paths : List String) (peer : Node) (tl : TransactionLog) (w : W) (n : ℕ)
      → get_transaction_log net g client peer self.public self w ≡ (ok tl, w)
      → All (Logged tl) paths
      → All (Recorded tl) tl
      → on_events net disk g local_path self client peer tl (replicate n (polled paths)) w
        ≡ (ok tl, w)
  unfolding on_events
  on_events-polls paths peer tl w zero got walked recorded = refl
  on_events-polls paths peer tl w (suc n) got walked recorded =
      rw (synchronize_settled paths peer tl w w got walked recorded)
        (on_events-polls paths peer tl w n got walked recorded)
