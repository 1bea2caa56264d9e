-- ===== src/Client/Files/Leaves.antt =====
-- Views of the node and of the client's machine that a step of the client does not change.
use peerstore.Base.{
  ℕ, ◌≡◌, refl, ◌∙◌, String, string_eq, bytes_eq, Option, none, some, Bytes, nat_eq,
}
use peerstore.Base.Result.{Result, ok, err, panic}
use peerstore.Base.Act.{Act, after, ◌>>=◌, wrap_step, ignore_error}
use peerstore.Models.Node.{Identifier, PublicKey, PrivateKey, Node}
use peerstore.Protocol.Message.{
  Request, Response, get_successor_method, get_file_method, post_file_method,
}
use peerstore.Protocol.Transport.{Transport, new_transport}
use peerstore.File.Storage.{no_faults}
use peerstore.File.Handlers.{get_file_handler, post_file_handler}
use peerstore.Client.Requests.{Net, open_transport}
use peerstore.Client.Log.{after_post}
use peerstore.Client.Files.{}
use peerstore.Client.Direct.{Site, at_node, connected, direct, own_machine}

-- A step after which this view of the site is the same
pub record Leaves {A B : Type 0} (view : Site → B) (m : Act Site A) : Type 0 where
  pub at : (s : Site) → view (m s).1 ≡ view s

module _ {B : Type 0} (view : Site → B) where
  pub leaves : {A : Type 0} (m : Act Site A) → ((s : Site) → view (m s).1 ≡ view s) → Leaves view m
  leaves m h = record { at = h }

  after-view :
      {A C : Type 0} (x : Result A × Site) (f : A → Act Site C)
      → ((a : A) → Leaves view (f a))
      → view (after x f).1 ≡ view x.1
  after-view (ok a, s) f h = (h a).at s
  after-view (err e, s) f h = refl
  after-view (panic, s) f h = refl

  pub bind-Leaves :
      {A C : Type 0} (m : Act Site A) (f : A → Act Site C)
      → Leaves view m
      → ((a : A) → Leaves view (f a))
      → Leaves view (m >>= f)
  bind-Leaves m f h k = record { at = λ s. after-view (m s) f k ∙ h.at s }

  pub ignore_error-Leaves :
      {A : Type 0} (a : A) (m : Act Site A) → Leaves view m → Leaves view (ignore_error a m)
  ignore_error-Leaves a m h = record { at = h.at }

  pub wrap_step-Leaves :
      {A : Type 0} (t : String) (m : Act Site A) → Leaves view m → Leaves view (wrap_step t m)
  wrap_step-Leaves t m h = record { at = h.at }

-- A view that neither the client's clock nor a post of this file changes
abbrev pub BlindTo : {B : Type 0} → (Site → B) → Identifier → Type 0
BlindTo view key =
    ((n : ℕ) (s : Site) → view (record s { own_clock = n }) ≡ view s)
    × ((r : Request) (s : Site)
        → r.header.key ≡ key
        → view (record s { files = (post_file_handler no_faults r s.files).1 }) ≡ view s)

module _ (encode_node : Node → Bytes) (node : Node) {B : Type 0} (view : Site → B) where
  abbrev net : Net Site
  net = direct encode_node node

  pub open_transport-Leaves :
      (addr : String) (caller : ℕ) (id : Identifier) (k : Option PublicKey) (key : PrivateKey)
      → Leaves view (open_transport net addr caller id k key)
  unfolding open_transport new_transport
  open_transport-Leaves addr caller id k key = record { at = λ s. refl }

  over :
      (r : Request)
      → Leaves view (at_node encode_node node r)
      → (o : Option String) → Leaves view (connected encode_node node o r)
  over r h none = record { at = λ s. refl }
  over r h (some addr) = record { at = h.at }

  -- A request that asks for a node or for a file changes nothing on the node.
  pub asking :
      (r : Request) → r.method ≡ get_successor_method → (t : Transport) → Leaves view (net.trip t r)
  unfolding at_node
  asking r h t = over r (leaves view _ λ s. rw h) t.conn

  pub reading :
      (r : Request) → r.method ≡ get_file_method → (t : Transport) → Leaves view (net.trip t r)
  unfolding at_node get_file_handler
  reading r h t = over r (leaves view _ λ s. rw h) t.conn

  pub posting :
      (r : Request) (key : Identifier)
      → BlindTo view key
      → r.method ≡ post_file_method
      → r.header.key ≡ key
      → (t : Transport) → Leaves view (net.trip t r)
  unfolding at_node post_file_handler
  posting r key b h e t = over r (leaves view _ λ s. rw h (b.1 r s e)) t.conn

  pub after_post-Leaves :
      (key : Identifier) (x : Result Response × Site)
      → BlindTo view key
      → view (after_post own_machine x).1 ≡ view x.1
  after_post-Leaves key (ok resp, s) b = b.0 _ s
  after_post-Leaves key (err e, s) b = b.0 _ s
  after_post-Leaves key (panic, s) b = refl
