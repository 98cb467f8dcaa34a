-- ===== src/Client/Ui.antt =====
-- client/ui.c: text positions and screens.
pub mod Utf8
pub mod Layout
pub mod Backup
pub mod Editor
pub mod Viewer
pub mod ListScreen
pub mod Draw
pub mod Bars
