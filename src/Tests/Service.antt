-- ===== src/Tests/Service.antt =====
-- The refinement of File.Service at three calls.
use peerstore.Base.{ℕ, ◌≡◌, refl, none, List, [], ◌∷◌, Bytes, replicate, arith}
use peerstore.Base.Dict.{lookup}
use peerstore.Protocol.Message.{
  Request, zero_header, get_file_method, post_file_method, delete_file_method,
}
use peerstore.File.Handlers.{Files}
use peerstore.File.Owners.{as_pairs}
use peerstore.File.Service.{Call, gets, posts, deletes, Service, replies, handled_replies}
use peerstore.File.Service.Refinement.{handlers_refine}

abbrev asked : ℕ → Bytes → Request
asked method body = record {
  header = record zero_header { secret = replicate 256 9 };
  method = method;
  body = body;
}

abbrev calls : List Call
calls =
    posts (asked post_file_method (1 ∷ 2 ∷ []))
    ∷ gets (asked get_file_method [])
    ∷ deletes (asked delete_file_method [])
    ∷ []

abbrev nothing : Files
nothing = record { disk = []; clock = 0 }

abbrev no_files : Service
no_files key = none

handlers_refine_example : handled_replies calls nothing ≡ replies calls no_files
unfolding lookup as_pairs
handlers_refine_example =
    handlers_refine calls nothing no_files (λ key. refl)
      ((((refl, refl), tt), omega arith), (tt, (tt, tt)))
