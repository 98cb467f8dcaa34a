-- ===== src/Server.antt =====
-- server/: the storage of users and entries, and the handler of one authenticated client.
pub mod Sqlite
pub mod Storage
pub mod Handler
pub mod Directories
pub mod Main
pub mod Spec
