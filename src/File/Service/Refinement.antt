-- ===== src/File/Service/Refinement.antt =====
-- The handlers of file/handlers.go against the abstract file service.
use peerstore.Base.{
  ◌≡◌, ◌≢◌, refl, subst, ap, ◌∙◌, Option, none, some, List, [], ◌∷◌, ◌++◌, Bytes, bytes_eq,
  bytes_beq_iff, nat_eq, ◌==◌, Bool-cases, Option-cases, inl, inr, arith,
}
use peerstore.Base.Dict.{lookup, erase, lookup-insert_self, lookup-erase_self}
use peerstore.Models.Node.{Identifier}
use peerstore.Protocol.Message.{Request}
use peerstore.File.Storage.{no_faults, get, delete}
use peerstore.File.Owners.{secret_of, new_header, old_header}
use peerstore.File.Owners.Holds.{read_owners-fit, AllFit-append}
use peerstore.File.Owners.RoundTrip.{read_owners-new_header, read_owners-old_header}
use peerstore.File.Handlers.{Files, get_file_handler, post_file_handler, delete_file_handler}
use peerstore.File.Handlers.Access.{served, get_file-served, post_file-new, post_file-old}
use peerstore.File.Handlers.Frame.{other_files_kept}
use peerstore.File.Service.{
  Shared, Service, Call, gets, posts, deletes, serve, key_of, next, replies, handle, reply_of,
  handled_replies, PostFits, CallFits, CallsFit, Shows, Represents, get_owned,
}

-- What a call does to its own file
abbrev Served : Call → Files → Option Shared → Type 0
Served c s v =
    (reply_of (handle c s).0 ≡ (serve c v).0)
    × Shows (lookup (key_of c) (handle c s).1.disk) (serve c v).1

served_reply : (body : Bytes) (o : Option Bytes) → reply_of (served body o) ≡ get_owned body o
served_reply body none = refl
served_reply body (some secret) = refl

get_file-Served :
    (r : Request) (s : Files) (v : Option Shared)
    → Shows (lookup r.header.key s.disk) v
    → Served (gets r) s v
unfolding get_file_handler get
get_file-Served r s none h = (rw h refl, h)
get_file-Served r s (some (owners, body)) (content, h, p) =
    let answered = get_file-served no_faults r s content owners body refl h p in
    (
      ap (λ x. reply_of x.0) answered ∙ served_reply body (secret_of r.header.from owners),
      (content, h, p),
    )

post_file-Served :
    (r : Request) (s : Files) (v : Option Shared)
    → PostFits r v
    → Shows (lookup r.header.key s.disk) v
    → Served (posts r) s v
unfolding post_file_handler get
post_file-Served r s none (fit, room) h =
    let content = new_header r.header.from r.header.secret r.header.shared_with ++ r.body in
    let done = post_file-new r s h in
    (
      ap (λ x. reply_of x.0) done,
      (
        content,
        ap (λ x. lookup r.header.key x.1.disk) done
            ∙ lookup-insert_self r.header.key content (erase r.header.key s.disk),
        read_owners-new_header r.header.from r.header.secret r.header.shared_with r.body fit room,
      ),
    )
post_file-Served r s (some (owners, body)) (fit, room) (content, h, p) =
    elim (Option-cases (secret_of r.header.from owners)) [
      | inl q ↦ rw (h, p, q) (refl, (content, h, p))
      | inr (secret, q) ↦
          let newer = old_header owners r.header.shared_with ++ r.body in
          let done = post_file-old r s content owners body secret h p q in
          rw q (
            ap (λ x. reply_of x.0) done,
            (
              newer,
              ap (λ x. lookup r.header.key x.1.disk) done
                  ∙ lookup-insert_self r.header.key newer (erase r.header.key s.disk),
              read_owners-old_header owners r.header.shared_with r.body
                  (AllFit-append owners _ (read_owners-fit content owners body p) fit) room,
            ),
          )
    ]

delete_file-Served :
    (r : Request) (s : Files) (v : Option Shared)
    → Shows (lookup r.header.key s.disk) v
    → Served (deletes r) s v
unfolding delete_file_handler get delete
delete_file-Served r s none h = (rw h refl, rw h h)
delete_file-Served r s (some (owners, body)) (content, h, p) =
    elim (Option-cases (secret_of r.header.from owners)) [
      | inl q ↦ rw (h, p, q) (refl, (content, h, p))
      | inr (secret, q) ↦ rw (h, p, q, h) (refl, lookup-erase_self r.header.key s.disk)
    ]

handle-Served :
    (c : Call) (s : Files) (v : Option Shared)
    → CallFits c v
    → Shows (lookup (key_of c) s.disk) v
    → Served c s v
handle-Served (gets r) s v f h = get_file-Served r s v h
handle-Served (posts r) s v f h = post_file-Served r s v f h
handle-Served (deletes r) s v f h = delete_file-Served r s v h

handle-others :
    (c : Call) (s : Files) (key : Identifier)
    → key_of c ≢ key
    → lookup key (handle c s).1.disk ≡ lookup key s.disk
unfolding get_file_handler
handle-others (gets r) s key n = refl
handle-others (posts r) s key n = (other_files_kept no_faults r key n s).0
handle-others (deletes r) s key n = (other_files_kept no_faults r key n s).2

-- One call keeps the representation.
handle-Represents :
    (c : Call) (s : Files) (a : Service)
    → CallFits c (a (key_of c))
    → Represents s.disk a
    → Represents (handle c s).1.disk (next c a)
handle-Represents c s a f h key = elim (Bool-cases (key_of c == key)) [
  | inl e ↦
      let same : key_of c ≡ key = (bytes_beq_iff (key_of c) key).0 e in
      rw e (
        subst (λ k. Shows (lookup k (handle c s).1.disk) (serve c (a (key_of c))).1) same
          (handle-Served c s (a (key_of c)) f (h (key_of c))).1)
  | inr e ↦
      let apart : key_of c ≢ key = λ same. absurd (ground (arith, bytes_beq_iff (key_of c) key)) in
      rw (e, handle-others c s key apart) (h key)
]

-- On a disk where nothing fails and that represents the files of the service, the handlers answer any sequence of calls
-- as the service does, call by call: with the caller's secret and data, a refusal, or, for the deletion of a file that
-- is not there, a panic. Every post in it keeps to the sizes of the header's layout.
pub handlers_refine :
    (calls : List Call) (s : Files) (a : Service)
    → Represents s.disk a
    → CallsFit calls a
    → handled_replies calls s ≡ replies calls a
unfolding handled_replies replies
handlers_refine [] s a h f = refl
handlers_refine (c ∷ calls) s a h (f, fs) =
    let rest = handlers_refine calls (handle c s).1 (next c a) (handle-Represents c s a f h) fs in
    let first = (handle-Served c s (a (key_of c)) f (h (key_of c))).0 in cc
