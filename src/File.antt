-- ===== src/File.antt =====
-- file: the files of a server, their owners, and the handlers that read and write them.
pub mod Storage
pub mod Owners
pub mod Handlers
pub mod Service
