-- ===== src/Gui/Client/Served/Firmware.antt =====
-- Fn+Q, from the key to the window.
use legion_linux_toolkit_rus.Prelude.{String, false, some}
use legion_linux_toolkit_rus.Prelude.Float.{Floats}
use legion_linux_toolkit_rus.Bus.{ZbusError, Json}
use legion_linux_toolkit_rus.Hw.Sysfs.{Sysfs}
use legion_linux_toolkit_rus.Hw.Profile
use legion_linux_toolkit_rus.Hw.ProfileWatch.{Reread}
use legion_linux_toolkit_rus.Daemon.Error.{DaemonError}
use legion_linux_toolkit_rus.Daemon.Iface.{Outside, Daemon}
use legion_linux_toolkit_rus.Daemon.Property
use legion_linux_toolkit_rus.Daemon.Watch.{ProfileWatcher, ready}
use legion_linux_toolkit_rus.Daemon.Main.{wake, step}
use legion_linux_toolkit_rus.Gui.Client.Served.{PropertyCache}

module _ (C : PropertyCache) (F : Floats) (J : Json) (W : Outside) (hdr : W.bus.Header)
    (to_zbus : DaemonError → ZbusError) (display : ZbusError → String) where
  -- The firmware leaves other files, and the daemon's descriptor wakes with what it reads.
  abbrev pub fn_q : Sysfs → Reread → ProfileWatcher → Daemon → Daemon
  fn_q root r w d =
      (step W (record { daemon = record d { root = root }; watcher = some w; parked = false })
        (wake (ready r))).daemon
