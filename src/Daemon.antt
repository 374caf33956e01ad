-- ===== src/Daemon.antt =====
-- crates/legion-daemon: the daemon that owns the hardware, a module for each file of its src
-- folder.
pub mod Error
pub mod Auth
pub mod State
pub mod Iface
pub mod Property
pub mod Reports
pub mod Methods
pub mod Reapply
pub mod Watch
pub mod Main
