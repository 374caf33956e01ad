-- ===== src/Ctl.antt =====
-- crates/legion-ctl: the command line, over the daemon or straight to the files.
pub mod Backend
pub mod Commands
pub mod Status
pub mod Main
