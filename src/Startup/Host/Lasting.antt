-- ===== src/Startup/Host/Lasting.antt =====
-- A file of a running server, from its post on.
use peerstore.Base.{◌≡◌, bytes_eq, nat_eq, Option, List, Bytes, ◌++◌}
use peerstore.Base.Dict.{insert, erase}
use peerstore.Models.Node.{PublicKey}
use peerstore.Models.Clock.{increment_clock}
use peerstore.Protocol.Message.{Request}
use peerstore.File.Storage.{no_faults}
use peerstore.File.Owners.{IdSecret, owners_of_new, new_header}
use peerstore.Startup.Host.{Host, Environment}

module _ {W : Type 0} (env : Environment W) (calm : env.faults ≡ no_faults) where
  module _ (context : Option PublicKey) (r : Request) (w : Host W) where
    abbrev owners : List IdSecret
    owners = owners_of_new r.header.from r.header.secret r.header.shared_with

    abbrev content : Bytes
    content = new_header r.header.from r.header.secret r.header.shared_with ++ r.body

    abbrev posted : Host W
    posted = record w {
      files = record {
        disk = insert r.header.key content (erase r.header.key w.files.disk);
        clock = increment_clock w.files.clock r.header.clock;
      };
    }
