-- ===== src/Hw.antt =====
-- crates/legion-hw: the hardware backend, a module for each file of its src folder.
pub mod Error
pub mod Sysfs
pub mod Profile
pub mod Battery
pub mod FirmwareAttrs
pub mod Ideapad
pub mod KbdBacklight
pub mod Cpu
pub mod Fan
pub mod BatteryStats
pub mod ProfileWatch
pub mod Detect
