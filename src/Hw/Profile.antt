-- ===== src/Hw/Profile.antt =====
-- crates/legion-hw/src/profile.rs: the power modes, the discovery of the device to drive, and
-- reads and writes of the active mode.
pub mod Names
pub mod Device
pub mod RoundTrip
use legion_linux_toolkit_rus.Prelude.{
  String, Bool, false, ◌||◌, Option, none, some, List, [], ◌∷◌, ◌==◌, if◌then◌else◌, find,
}
use legion_linux_toolkit_rus.Prelude.Result.{err, ok_or, collect, ◌>>=◌}
use legion_linux_toolkit_rus.Text.{◌<>◌, trim, to_ascii_lowercase, split_whitespace}
use legion_linux_toolkit_rus.Hw.Error.{HwError, HwResult, plain, quoted}
use legion_linux_toolkit_rus.Hw.Sysfs.{
  Sysfs, Kernel, Action, read, read_opt, exists, write, list_dir, is_named,
}
use mathlib.Core.Option

abbrev pub class_dir : String
class_dir = "sys/class/platform-profile"

abbrev pub gamezone : String
gamezone = "lenovo-wmi-gamezone"

pub data PowerProfile : Type 0 where
  quiet balanced performance extreme custom : PowerProfile

abbrev pub all : List PowerProfile
all = quiet ∷ balanced ∷ performance ∷ extreme ∷ custom ∷ []

unfoldable pub as_sysfs : PowerProfile → String
as_sysfs quiet = "low-power"
as_sysfs balanced = "balanced"
as_sysfs performance = "performance"
as_sysfs extreme = "max-power"
as_sysfs custom = "custom"

unfoldable pub label : PowerProfile → String
label quiet = "Quiet"
label balanced = "Balanced"
label performance = "Performance"
label extreme = "Extreme"
label custom = "Custom"

pub data LedColor : Type 0 where
  blue white red purple : LedColor

unfoldable pub led_color : PowerProfile → LedColor
led_color quiet = blue
led_color balanced = white
led_color performance = red
led_color extreme = purple
led_color custom = purple

unfoldable pub hex : LedColor → String
hex blue = "#3b82f6"
hex white = "#e5e7eb"
hex red = "#ef4444"
hex purple = "#a855f7"

unfoldable pub from_sysfs : String → HwResult PowerProfile
unfolding as_sysfs
from_sysfs s =
    ok_or (HwError.parse (plain "unknown platform profile " ∷ quoted s ∷ []))
      (find (λ p. as_sysfs p == s) all)

-- The test of `from_user` on a mode.
unfoldable pub spelled : String → PowerProfile → Bool
unfolding as_sysfs label to_ascii_lowercase
spelled s p = as_sysfs p == s || to_ascii_lowercase (label p) == s

unfoldable pub from_user : String → HwResult PowerProfile
unfolding spelled trim
from_user input =
    let s = to_ascii_lowercase (trim input) in
    ok_or (HwError.parse (plain "unknown power profile " ∷ quoted s ∷ [])) (find (spelled s) all)

abbrev pub or_insert : Option String → String → Option String
or_insert none rel = some rel
or_insert (some old) rel = some old

-- The loop of `device_dir` over the entries left.
unfoldable pub device_among : Sysfs → Option String → List String → Option String
unfolding read_opt
device_among root fallback [] = fallback
device_among root fallback (entry ∷ rest) =
    let rel = class_dir <> "/" <> entry in
    if is_named gamezone (read_opt root (rel <> "/name"))
    then some rel
    else device_among root (or_insert fallback rel) rest

unfoldable pub device_dir : Sysfs → Option String
unfolding device_among list_dir
device_dir root = device_among root none (list_dir root class_dir)

unfoldable pub profile_file : Sysfs → Option String
unfolding device_dir
profile_file root = Option.map (λ dir. dir <> "/profile") (device_dir root)

abbrev pub is_some_and : (String → Bool) → Option String → Bool
is_some_and p none = false
is_some_and p (some s) = p s

unfoldable pub available : Sysfs → Bool
unfolding profile_file exists
available root = is_some_and (exists root) (profile_file root)

abbrev pub and_then : Option String → (String → Option String) → Option String
and_then none f = none
and_then (some s) f = f s

unfoldable pub driver_name : Sysfs → Option String
unfolding device_dir read_opt
driver_name root = and_then (device_dir root) (λ dir. read_opt root (dir <> "/name"))

unfoldable pub choices : Sysfs → HwResult (List PowerProfile)
unfolding device_dir read split_whitespace from_sysfs
choices root = do
  dir ← ok_or HwError.not_supported (device_dir root)
  raw ← read root (dir <> "/choices")
  collect from_sysfs (split_whitespace raw)

unfoldable pub get : Sysfs → HwResult PowerProfile
unfolding profile_file read from_sysfs
get root = do
  file ← ok_or HwError.not_supported (profile_file root)
  raw ← read root file
  from_sysfs raw

abbrev pub at_file : Kernel → String → Option String → Action
at_file K value none root = (err HwError.not_supported, root)
at_file K value (some file) root = write K file value root

unfoldable pub set : Kernel → PowerProfile → Action
unfolding profile_file as_sysfs write
set K p root = at_file K (as_sysfs p) (profile_file root) root
