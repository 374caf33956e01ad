-- ===== src/Daemon/Property.antt =====
-- crates/legion-daemon/src/iface.rs: the properties of the interface.
use legion_linux_toolkit_rus.Prelude.{ℕ, String, Bool, false, Option, none, some, List, [], map}
use legion_linux_toolkit_rus.Prelude.Result.{ok, err, unwrap_or, map_ok}
use legion_linux_toolkit_rus.Hw.Error.{HwResult}
use legion_linux_toolkit_rus.Hw.Sysfs.{Sysfs}
use legion_linux_toolkit_rus.Hw.Profile
use legion_linux_toolkit_rus.Hw.Profile.{
  PowerProfile, quiet, balanced, performance, extreme, custom,
}
use legion_linux_toolkit_rus.Hw.Battery
use legion_linux_toolkit_rus.Hw.Battery.{ChargeMode}
use legion_linux_toolkit_rus.Hw.Ideapad
use legion_linux_toolkit_rus.Hw.Ideapad.{Toggle}
use legion_linux_toolkit_rus.Hw.KbdBacklight
use legion_linux_toolkit_rus.Hw.Cpu

-- `unwrap_or_default` on a text
abbrev pub or_empty : HwResult String → String
or_empty (ok s) = s
or_empty (err e) = ""

abbrev pub or_no : Option Bool → Bool
or_no none = false
or_no (some b) = b

-- The properties, each read from the files at the moment of the call.
unfoldable pub profile : Sysfs → String
profile root = or_empty (map_ok Profile.as_sysfs (Profile.get root))

unfoldable pub profile_choices : Sysfs → List String
profile_choices root = unwrap_or [] (map_ok (map Profile.as_sysfs) (Profile.choices root))

unfoldable pub battery_mode : Sysfs → String
battery_mode root = or_empty (map_ok Battery.as_sysfs (Battery.get_mode root))

unfoldable pub fn_lock : Sysfs → Bool
fn_lock root = or_no (Ideapad.get root Toggle.fn_lock)

unfoldable pub camera_power : Sysfs → Bool
camera_power root = or_no (Ideapad.get root Toggle.camera_power)

unfoldable pub usb_charging : Sysfs → Bool
usb_charging root = or_no (Ideapad.get root Toggle.usb_charging)

unfoldable pub kbd_backlight : Sysfs → ℕ
kbd_backlight root = unwrap_or 0 (KbdBacklight.get root)

unfoldable pub cpu_boost : Sysfs → Bool
cpu_boost root = or_no (Cpu.get_boost root)
