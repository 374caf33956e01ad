-- ===== src/Hw/BatteryStats.antt =====
-- crates/legion-hw/src/battery.rs: the statistics of the battery.
use legion_linux_toolkit_rus.Prelude.{ℕ, String, Bool, Option, none, some, ltb, if◌then◌else◌}
use legion_linux_toolkit_rus.Prelude.Float.{Floats}
use legion_linux_toolkit_rus.Text.{◌<>◌}
use legion_linux_toolkit_rus.Hw.Sysfs.{Sysfs, u32, u64, read_opt, read_parsed_opt}
use legion_linux_toolkit_rus.Hw.Battery.{ac_online}

abbrev pub bat : String
bat = "sys/class/power_supply/BAT0"

module _ (F : Floats) where
  open F use {F64, of_u64, divide, multiply}

  pub record BatteryStats : Type 0 where
    pub capacity : Option ℕ
    pub capacity_from_energy : Option F64
    pub energy_now : Option ℕ
    pub energy_full : Option ℕ
    pub energy_full_design : Option ℕ
    pub health_pct : Option F64
    pub voltage_now : Option ℕ
    pub power_now : Option ℕ
    pub cycle_count : Option ℕ
    pub status : Option String
    pub ac_online : Option Bool

  -- `a as f64 / b as f64 * 100.0` where both are read and `b > 0`.
  unfoldable pub percent : Option ℕ → Option ℕ → Option F64
  percent (some a) (some b) =
      if ltb 0 b then some (multiply (divide (of_u64 a) (of_u64 b)) (of_u64 100)) else none
  percent (some a) none = none
  percent none b = none

  unfoldable pub stats : Sysfs → BatteryStats
  unfolding percent read_opt read_parsed_opt ac_online
  stats root =
      let g = λ (name : String). read_parsed_opt u64 root (bat <> "/" <> name) in
      record {
        capacity = read_parsed_opt u32 root (bat <> "/capacity");
        capacity_from_energy = percent (g "energy_now") (g "energy_full");
        energy_now = g "energy_now";
        energy_full = g "energy_full";
        energy_full_design = g "energy_full_design";
        health_pct = percent (g "energy_full") (g "energy_full_design");
        voltage_now = g "voltage_now";
        power_now = g "power_now";
        cycle_count = read_parsed_opt u32 root (bat <> "/cycle_count");
        status = read_opt root (bat <> "/status");
        ac_online = ac_online root;
      }
