-- ===== src/Hw/KbdBacklight.antt =====
-- crates/legion-hw/src/kbd_backlight.rs: the level of the keyboard backlight.
pub mod Laws
use legion_linux_toolkit_rus.Prelude.{ℕ, String, Bool, Option, [], ◌∷◌, ltb, if◌then◌else◌}
use legion_linux_toolkit_rus.Prelude.Result.{ok, err}
use legion_linux_toolkit_rus.Text.Decimal.{show}
use legion_linux_toolkit_rus.Hw.Error.{HwError, HwResult, Message, plain}
use legion_linux_toolkit_rus.Hw.Sysfs.{
  Sysfs, Kernel, Action, u32, read_parsed, read_parsed_opt, exists, write,
}

abbrev pub brightness_file : String
brightness_file = "sys/class/leds/platform::kbd_backlight/brightness"

abbrev pub max_file : String
max_file = "sys/class/leds/platform::kbd_backlight/max_brightness"

abbrev pub hw_changed_file : String
hw_changed_file = "sys/class/leds/platform::kbd_backlight/brightness_hw_changed"

unfoldable pub available : Sysfs → Bool
unfolding exists
available root = exists root brightness_file

unfoldable pub max : Sysfs → HwResult ℕ
unfolding read_parsed
max root = read_parsed u32 root max_file

unfoldable pub get : Sysfs → HwResult ℕ
unfolding read_parsed
get root = read_parsed u32 root brightness_file

abbrev pub out_of_range : ℕ → ℕ → Message
out_of_range level maximum =
    plain "keyboard backlight level "
    ∷ plain (show level)
    ∷ plain " is out of range: 0–"
    ∷ plain (show maximum)
    ∷ []

abbrev pub set_within : Kernel → ℕ → HwResult ℕ → Action
set_within K level (err e) root = (err e, root)
set_within K level (ok maximum) root =
    if ltb maximum level
    then (err (HwError.parse (out_of_range level maximum)), root)
    else write K brightness_file (show level) root

unfoldable pub set : Kernel → ℕ → Action
unfolding max show write
set K level root = set_within K level (max root) root

unfoldable pub hw_changed : Sysfs → Option ℕ
unfolding read_parsed_opt
hw_changed root = read_parsed_opt u32 root hw_changed_file
