-- ===== src/Lib.antt =====
-- A verification library of the Legion Toolkit: the hardware library crates/legion-hw, the daemon
-- crates/legion-daemon, the command line crates/legion-ctl, and the window and tray
-- crates/legion-gui as far as the program decides what they show and ask.
--
-- How the parts interact. `legiond` reads and writes sysfs through legion-hw, keeps what was set in
-- a state file, announces changes on the bus, and checks each caller with polkit. The window and
-- the tray show what the daemon says and send it requests. The command line goes through the
-- daemon, or straight to the files where there is none.
--
-- The files. Prelude and Text hold what is shared: Boolean tests, lists, results, and the
-- operations of Rust's `str` with their laws. Hw has a module for each file of
-- crates/legion-hw/src: Sysfs, Error, Profile, Battery and BatteryStats (battery.rs),
-- FirmwareAttrs, Ideapad, Cpu, Fan, KbdBacklight, Detect, ProfileWatch. Daemon has a module for
-- each file of crates/legion-daemon/src: Error, Auth, State, Watch, Main, and for iface.rs the
-- modules Iface (the daemon and the shape of a method), Property (the properties), Reports (what it
-- reports as a text), Methods (the methods) and Reapply (`reapply_state`). Bus has the errors and
-- the texts that clients see. Ctl has Backend for crates/legion-ctl/src/backend.rs, Commands and
-- Status for commands.rs and Main for main.rs. Gui has Slider, Labels and Color for state.rs,
-- Snapshot for bus.rs, Tray for tray.rs, SingleInstance for single_instance.rs, and Window (the
-- properties and callbacks) and Client (the task that talks to the daemon, and the pump) for
-- main.rs of crates/legion-gui/src. Gui.Client.Served and Ctl.Commands.Agreement put the daemon on
-- the other side of the clients' proxies, for the window one that caches properties, and
-- Daemon.Main.History keeps the settings as the callers are told of them. Tests holds a machine, a
-- daemon on it, and the theorems at work. A function of the source has its name; its module stands
-- for its type or file.
--
-- State. `SysRoot` is a handle on files that the kernel owns, so the model passes what the files
-- answer (Hw.Sysfs.Sysfs) and a write returns the files as the kernel leaves them; what the kernel
-- does with a write is a parameter. A theorem that needs a kernel that keeps what is written says
-- so by Hw.Sysfs.Laws.IsAttribute, and for the charge modes by Hw.Battery.RoundTrip.ShowsSelection.
-- A method of the daemon takes the daemon with its files, disk, signals and state, and returns its
-- result and the daemon it leaves, whether it fails or not.
--
-- The task of the window runs on the list of what its `select!` yields: requests, signals, and
-- changes of the daemon that others make in between. The files may change at any step of the
-- daemon's loop, and the signals of a change are in the window's cache before its next read. It
-- returns the events that it sends, and the pump takes them one by one; a panic of the window is
-- `none`.
--
-- Parameters. The kernel, polkit, the disk with the calls on files, serde's texts (Bus.Json), the
-- bus and its proxies, the cache of properties in the window's proxy
-- (Gui.Client.Served.PropertyCache, which `zbus::Proxy::new` turns on), the abstract sockets and
-- `f64` (Prelude.Float.Floats) are arguments. The laws assumed of them stand in records named
-- Is..., Keeps... or Shows..., and the tests satisfy each with a concrete function.
--
-- Bounds and fuel. Numbers of sysfs are `u32` or `u64`, which the parsers check; conversions to
-- `i32` write their wrap-around out. Decimal output runs on fuel one above the number, which is
-- more than it has digits. Repeated calls of `next_change` run on one unit for each wake. The other
-- loops are structural.
--
-- Not modelled: the parsing of arguments by clap, logging, the set-up of connections, threads and
-- timers, the loading of the logo, the user-interface markup, and what is generated or belongs to
-- other systems.
pub mod Prelude
pub mod Text
pub mod Hw
pub mod Daemon
pub mod Bus
pub mod Ctl
pub mod Gui
pub mod Tests
