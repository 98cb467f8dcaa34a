-- ===== src/Tests.antt =====
-- Runs of the models, and the theorems at concrete inputs.
mod Server
mod Editor
mod Net
mod Busy
mod Full
mod Delivery
mod Order
mod Replies
mod Journal
mod Screens
mod Directories
mod Stdin
mod Android
mod Draw
mod Main
mod Posts
mod Spec
