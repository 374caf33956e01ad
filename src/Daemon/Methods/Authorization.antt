-- ===== src/Daemon/Methods/Authorization.antt =====
-- No method does anything for a caller who is not authorized.
use legion_linux_toolkit_rus.Prelude.{◌≡◌}
use legion_linux_toolkit_rus.Prelude.Result.{err}
use legion_linux_toolkit_rus.Daemon.Error.{DaemonError}
use legion_linux_toolkit_rus.Daemon.Auth.{check}
use legion_linux_toolkit_rus.Daemon.Iface.{Outside, Daemon, Call}
use legion_linux_toolkit_rus.Daemon.Methods.{authorize, handle}

module _ (W : Outside) (hdr : W.bus.Header) (d : Daemon) where
  -- Where the check of the caller fails, every method fails with the error of the check, and the
  -- files, the disk, the signals and the state are as they were.
  pub handle_unauthorized :
      (c : Call) (e : DaemonError)
      → check W.bus d.authorizer hdr ≡ err e
      → handle W c hdr d ≡ (err e, d)
  unfolding handle authorize
  handle_unauthorized (Call.set_profile v) e h = rw h
  handle_unauthorized (Call.set_battery_mode v) e h = rw h
  handle_unauthorized (Call.set_fn_lock v) e h = rw h
  handle_unauthorized (Call.set_camera_power v) e h = rw h
  handle_unauthorized (Call.set_usb_charging v) e h = rw h
  handle_unauthorized (Call.set_cpu_boost v) e h = rw h
  handle_unauthorized (Call.set_kbd_backlight v) e h = rw h
  handle_unauthorized (Call.set_fan_mode v) e h = rw h
  handle_unauthorized (Call.set_ppt a w) e h = rw h
