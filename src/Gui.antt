-- ===== src/Gui.antt =====
-- crates/legion-gui: what the window and the tray show, and what they ask of the daemon.
pub mod Slider
pub mod Labels
pub mod Color
pub mod Snapshot
pub mod Tray
pub mod Window
pub mod Client
pub mod SingleInstance
