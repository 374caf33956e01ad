-- ===== src/Hw/Fan.antt =====
-- crates/legion-hw/src/fan.rs: the fan speeds that the kernel reports.
use legion_linux_toolkit_rus.Prelude.{
  ℕ, String, Bool, not, ◌&&◌, Option, none, some, List, [], ◌∷◌, ◌++◌, filter, filter_map, first,
  is_empty,
}
use legion_linux_toolkit_rus.Text.{◌<>◌, strip_prefix, strip_suffix, starts_with, ends_with}
use legion_linux_toolkit_rus.Text.Decimal.{show}
use legion_linux_toolkit_rus.Text.Sort.{sort}
use legion_linux_toolkit_rus.Hw.Sysfs.{Sysfs, u32, read_opt, read_parsed_opt, list_dir}
use legion_linux_toolkit_rus.Hw.FirmwareAttrs.{get_or}
use mathlib.Core.Option

pub record FanReading : Type 0 where
  pub index : ℕ
  pub rpm : ℕ
  pub target_rpm : Option ℕ
  pub source : String

abbrev and_then {ℓ κ} : {A : Type ℓ} {B : Type κ} → Option A → (A → Option B) → Option B
and_then none f = none
and_then (some a) f = f a

unfoldable pub is_fan_input : String → Bool
unfolding starts_with ends_with
is_fan_input n = starts_with n "fan" && ends_with n "_input"

-- The number in `fanN_input`.
unfoldable pub fan_index : String → Option ℕ
unfolding strip_prefix strip_suffix
fan_index name = and_then (strip_prefix "fan" name) λ s. and_then (strip_suffix "_input" s) u32

-- One round of the inner loop; `continue` is `none`.
unfoldable pub reading : Sysfs → String → String → String → Option FanReading
unfolding fan_index read_parsed_opt show
reading root hwmon source name = and_then (fan_index name) λ index.
    and_then (read_parsed_opt u32 root (hwmon <> "/" <> name)) λ rpm. some (record {
      index = index;
      rpm = rpm;
      target_rpm = read_parsed_opt u32 root (hwmon <> "/fan" <> show index <> "_target");
      source = source;
    })

-- One round of the outer loop.
unfoldable pub hwmon_readings : Sysfs → String → List FanReading
unfolding reading is_fan_input read_opt list_dir sort
hwmon_readings root entry =
    let hwmon = "sys/class/hwmon/" <> entry in
    let source = get_or entry (read_opt root (hwmon <> "/name")) in
    let names = sort (filter is_fan_input (list_dir root hwmon)) in
    filter_map (reading root hwmon source) names

unfoldable pub readings_among : Sysfs → List String → List FanReading
unfolding hwmon_readings
readings_among root [] = []
readings_among root (entry ∷ rest) = hwmon_readings root entry ++ readings_among root rest

unfoldable pub readings : Sysfs → List FanReading
unfolding readings_among list_dir
readings root = readings_among root (list_dir root "sys/class/hwmon")

unfoldable pub rpm : Sysfs → Option ℕ
unfolding readings
rpm root = Option.map (λ (r : FanReading). r.rpm) (first (readings root))

unfoldable pub available : Sysfs → Bool
unfolding readings
available root = not (is_empty (readings root))
