-- ===== src/Models.antt =====
-- models/models.go: identifiers, nodes, finger tables, the Lamport clock and the transaction log.
pub mod Node
pub mod Clock
pub mod FingerTable
pub mod TransactionLog
