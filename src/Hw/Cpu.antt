-- ===== src/Hw/Cpu.antt =====
-- crates/legion-hw/src/cpu.rs: boost, governor, frequency and temperature.
pub mod Laws
use legion_linux_toolkit_rus.Prelude.{
  ℕ, String, Bool, false, ◌&&◌, ◌||◌, Option, none, some, List, find, filter, first,
}
use legion_linux_toolkit_rus.Prelude.Float.{Floats}
use legion_linux_toolkit_rus.Text.{◌<>◌, eq_ignore_ascii_case, starts_with, ends_with, replace_text}
use legion_linux_toolkit_rus.Text.Sort.{sort}
use legion_linux_toolkit_rus.Hw.Sysfs.{
  Sysfs, Kernel, Action, u32, u64, read_opt, read_parsed_opt, exists, write, list_dir, find_hwmon,
}
use legion_linux_toolkit_rus.Hw.Ideapad.{is_set, bit}
use mathlib.Core.Option

abbrev pub boost_file : String
boost_file = "sys/devices/system/cpu/cpufreq/boost"

abbrev pub cpu0 : String
cpu0 = "sys/devices/system/cpu/cpu0/cpufreq"

unfoldable pub has_boost : Sysfs → Bool
unfolding exists
has_boost root = exists root boost_file

unfoldable pub get_boost : Sysfs → Option Bool
unfolding read_parsed_opt
get_boost root = Option.map is_set (read_parsed_opt u32 root boost_file)

unfoldable pub set_boost : Kernel → Bool → Action
unfolding write
set_boost K on root = write K boost_file (bit on) root

unfoldable pub governor : Sysfs → Option String
unfolding read_opt
governor root = read_opt root (cpu0 <> "/scaling_governor")

unfoldable pub epp : Sysfs → Option String
unfolding read_opt
epp root = read_opt root (cpu0 <> "/energy_performance_preference")

unfoldable pub cur_freq_khz : Sysfs → Option ℕ
unfolding read_parsed_opt
cur_freq_khz root = read_parsed_opt u64 root (cpu0 <> "/scaling_cur_freq")

is_temp_input : String → Bool
unfolding starts_with ends_with
is_temp_input n = starts_with n "temp" && ends_with n "_input"

abbrev is_package : Option String → Bool
is_package none = false
is_package (some l) = eq_ignore_ascii_case l "Tctl" || eq_ignore_ascii_case l "Tdie"

-- The label of a sensor names the package temperature.
is_preferred : Sysfs → String → String → Bool
unfolding read_opt replace_text eq_ignore_ascii_case
is_preferred root hwmon input =
    is_package (read_opt root (hwmon <> "/" <> replace_text "_input" "_label" input))

abbrev or_first : Option String → List String → Option String
or_first none inputs = first inputs
or_first (some p) inputs = some p

-- The sensor that `temp_celsius` reads below a hwmon device.
unfoldable pub chosen_input : Sysfs → String → Option String
unfolding is_temp_input is_preferred list_dir sort
chosen_input root hwmon =
    let inputs = sort (filter is_temp_input (list_dir root hwmon)) in
    or_first (find (is_preferred root hwmon) inputs) inputs

-- `?` on an `Option`
abbrev and_then {ℓ κ} : {A : Type ℓ} {B : Type κ} → Option A → (A → Option B) → Option B
and_then none f = none
and_then (some a) f = f a

module _ (F : Floats) where
  open F use {F64, of_u64, divide, parse_f64}

  unfoldable pub temp_celsius : Sysfs → Option F64
  unfolding find_hwmon chosen_input read_parsed_opt
  temp_celsius root = and_then (find_hwmon root "k10temp") λ hwmon.
      and_then (chosen_input root hwmon) λ chosen.
        Option.map (λ t. divide t (of_u64 1000))
          (read_parsed_opt parse_f64 root (hwmon <> "/" <> chosen))

  pub record CpuInfo : Type 0 where
    pub boost : Option Bool
    pub governor : Option String
    pub epp : Option String
    pub cur_freq_khz : Option ℕ
    pub temp_celsius : Option F64

  unfoldable pub info : Sysfs → CpuInfo
  unfolding get_boost governor epp cur_freq_khz temp_celsius
  info root = record {
    boost = get_boost root;
    governor = governor root;
    epp = epp root;
    cur_freq_khz = cur_freq_khz root;
    temp_celsius = temp_celsius root;
  }
