-- ===== src/Models/TransactionLog.antt =====
-- The transaction log of models.go: what was done to each resource, and when.
use peerstore.Base.{ℕ, String, List}
use peerstore.Base.Dict.{Dict}
use peerstore.Models.Node.{Identifier}

-- `TransactionOperation`
pub data Operation : Type 0 where
  update delete : Operation

pub record Entry : Type 0 where
  pub operation : Operation
  pub client_id : Identifier
  pub timestamp : ℕ

pub record Entity : Type 0 where
  pub resource_name : String
  pub resource_id : Identifier
  pub entries : List Entry

abbrev pub TransactionLog : Type 0
TransactionLog = Dict String Entity
