-- ===== src/Hw/Ideapad.antt =====
-- crates/legion-hw/src/ideapad.rs: the toggles and the fan mode of the `ideapad_laptop` driver.
pub mod Laws
use legion_linux_toolkit_rus.Prelude.{
  ℕ, String, Bool, not, Option, List, [], ◌∷◌, ◌=?◌, if◌then◌else◌, find,
}
use legion_linux_toolkit_rus.Prelude.Result.{ok_or, ◌>>=◌}
use legion_linux_toolkit_rus.Text.{◌<>◌}
use legion_linux_toolkit_rus.Text.Decimal.{show}
use legion_linux_toolkit_rus.Hw.Error.{HwError, HwResult, plain}
use legion_linux_toolkit_rus.Hw.Sysfs.{
  Sysfs, Kernel, Action, u32, read_parsed, read_parsed_opt, exists, write,
}
use mathlib.Core.Option

abbrev pub dev : String
dev = "sys/bus/platform/devices/VPC2004:00"

pub data Toggle : Type 0 where
  fn_lock camera_power usb_charging conservation_mode : Toggle

unfoldable pub attr : Toggle → String
attr fn_lock = "fn_lock"
attr camera_power = "camera_power"
attr usb_charging = "usb_charging"
attr conservation_mode = "conservation_mode"

unfoldable pub label : Toggle → String
label fn_lock = "Fn Lock"
label camera_power = "Camera"
label usb_charging = "Always-on USB charging"
label conservation_mode = "Conservation mode (legacy)"

abbrev pub toggle_file : Toggle → String
toggle_file t = dev <> "/" <> attr t

unfoldable pub has : Sysfs → Toggle → Bool
unfolding exists attr
has root t = exists root (toggle_file t)

abbrev pub is_set : ℕ → Bool
is_set v = not (v =? 0)

unfoldable pub get : Sysfs → Toggle → Option Bool
unfolding read_parsed_opt attr
get root t = Option.map is_set (read_parsed_opt u32 root (toggle_file t))

abbrev pub bit : Bool → String
bit on = if on then "1" else "0"

unfoldable pub set : Kernel → Toggle → Bool → Action
unfolding write attr
set K t on root = write K (toggle_file t) (bit on) root

pub data FanMode : Type 0 where
  super_silent standard dust_cleaning efficient_thermal_dissipation : FanMode

abbrev pub all : List FanMode
all = super_silent ∷ standard ∷ dust_cleaning ∷ efficient_thermal_dissipation ∷ []

unfoldable pub value : FanMode → ℕ
value super_silent = 0
value standard = 1
value dust_cleaning = 2
value efficient_thermal_dissipation = 4

unfoldable pub fan_label : FanMode → String
fan_label super_silent = "Super Silent"
fan_label standard = "Standard"
fan_label dust_cleaning = "Dust Cleaning"
fan_label efficient_thermal_dissipation = "Efficient Thermal Dissipation"

unfoldable pub from_value : ℕ → HwResult FanMode
unfolding value show
from_value v =
    ok_or (HwError.parse (plain "invalid fan_mode value " ∷ plain (show v) ∷ []))
      (find (λ m. value m =? v) all)

abbrev pub fan_mode_file : String
fan_mode_file = "sys/bus/platform/devices/VPC2004:00/fan_mode"

unfoldable pub has_fan_mode : Sysfs → Bool
unfolding exists
has_fan_mode root = exists root fan_mode_file

unfoldable pub get_fan_mode : Sysfs → HwResult FanMode
unfolding read_parsed from_value
get_fan_mode root = do v ← read_parsed u32 root fan_mode_file; from_value v

unfoldable pub set_fan_mode : Kernel → FanMode → Action
unfolding write value show
set_fan_mode K mode root = write K fan_mode_file (show (value mode)) root
