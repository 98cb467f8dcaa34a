-- ===== src/Client.antt =====
-- client/: the terminal interface and the client half of the protocol.
pub mod Service
pub mod Net
pub mod Ui
pub mod Stdin
pub mod Main
