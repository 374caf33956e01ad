-- ===== src/Daemon/Methods/Success.antt =====
-- What a method that succeeds has done.
use mathlib.Core.List.{append-nil}
use legion_linux_toolkit_rus.Prelude.{List, [], ◌∷◌, ◌++◌, ◌≡◌, arith}
use legion_linux_toolkit_rus.Prelude.Result.{ok}
use legion_linux_toolkit_rus.Daemon.Auth.{check}
use legion_linux_toolkit_rus.Daemon.Iface.{Signal, Outside, Daemon, Call}
use legion_linux_toolkit_rus.Daemon.Methods.{authorize, handle, emit, persist}

-- The signals that a call announces when it succeeds.
abbrev pub announced : Call → List Signal
announced (Call.set_profile v) = Signal.profile ∷ []
announced (Call.set_battery_mode v) = Signal.battery_mode ∷ []
announced (Call.set_fn_lock v) = Signal.fn_lock ∷ []
announced (Call.set_camera_power v) = Signal.camera_power ∷ []
announced (Call.set_usb_charging v) = Signal.usb_charging ∷ []
announced (Call.set_cpu_boost v) = Signal.cpu_boost ∷ []
announced (Call.set_kbd_backlight v) = Signal.kbd_backlight ∷ []
announced (Call.set_fan_mode v) = []
announced (Call.set_ppt a w) = []

module _ (W : Outside) (hdr : W.bus.Header) (d : Daemon) where
  -- A method that succeeds was called by an authorized caller, and has announced the change of its
  -- own property, once, and nothing else; limits and the fan mode are no properties.
  pub handle_success :
      (c : Call)
      → (handle W c hdr d).0 ≡ ok tt
      → (check W.bus d.authorizer hdr ≡ ok tt)
        × ((handle W c hdr d).1.signals ≡ d.signals ++ announced c)
  unfolding handle authorize emit persist
  handle_success (Call.set_fan_mode v) h = ground (arith, append-nil d.signals)
  handle_success (Call.set_ppt a w) h = ground (arith, append-nil d.signals)
  handle_success _ h = ground arith
