-- ===== src/Client.antt =====
-- cmd/peerstore/client: its parameters, its requests, its operations, and its transaction log.
pub mod Sync
pub mod Requests
pub mod Payload
pub mod Operations
pub mod Log
pub mod Direct
pub mod Apart
pub mod Files
pub mod Params
pub mod Start
pub mod Program
