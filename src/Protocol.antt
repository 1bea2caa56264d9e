-- ===== src/Protocol.antt =====
-- protocol: the messages, their validation and encryption, and the server that answers them.
pub mod Message
pub mod Envelope
pub mod Server
pub mod Serve
pub mod Connection
pub mod Registration
pub mod Transport
pub mod Rpc
