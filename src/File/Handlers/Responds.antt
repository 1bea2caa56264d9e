-- ===== src/File/Handlers/Responds.antt =====
-- The responses of the file handlers, as messages.
use peerstore.Base.{arith}
use peerstore.Protocol.Message.{Request, IsResponse, validate_response}
use peerstore.File.Storage.{Faults}
use peerstore.File.Handlers.{Files, Outcome, respond}
use peerstore.File.Handlers.{get_file_handler, post_file_handler, delete_file_handler}
use peerstore.File.Handlers.{get_public_key_handler, post_public_key_handler}

-- A response, where there is one, passes `Validate`.
abbrev pub Responds : Outcome → Type 0
Responds (respond resp) = IsResponse resp
Responds Outcome.panic = Unit
Responds Outcome.stuck = Unit

module _ (f : Faults) (r : Request) where
  -- Whatever the five handlers are sent, and whatever fails, each response of theirs passes the client's validation.
  pub file_handlers-Responds :
      (s : Files)
      → Responds (get_file_handler f r s).0
        × Responds (post_file_handler f r s).0
        × Responds (get_public_key_handler f r s).0
        × Responds (post_public_key_handler f r s).0
        × Responds (delete_file_handler f r s).0
  unfolding get_file_handler post_file_handler delete_file_handler get_public_key_handler
      post_public_key_handler validate_response
  file_handlers-Responds s = (ground arith, ground arith, ground arith, ground arith, ground arith)
