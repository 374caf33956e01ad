-- ===== src/Gui/Labels.antt =====
-- crates/legion-gui/src/state.rs: the texts that the window shows.
use legion_linux_toolkit_rus.Prelude.{
  ℕ, String, Bool, true, false, Option, none, some, List, map, ◌==◌, if◌then◌else◌,
}
use legion_linux_toolkit_rus.Prelude.Float.{Floats}
use legion_linux_toolkit_rus.Prelude.Result.{ok, err, map_ok}
use legion_linux_toolkit_rus.Text.{◌<>◌}
use legion_linux_toolkit_rus.Text.Decimal.{show}
use legion_linux_toolkit_rus.Hw.Error.{HwResult}
use legion_linux_toolkit_rus.Hw.Profile
use legion_linux_toolkit_rus.Hw.Profile.{
  PowerProfile, quiet, balanced, performance, extreme, custom,
}
use legion_linux_toolkit_rus.Hw.Battery
use legion_linux_toolkit_rus.Hw.Battery.{ChargeMode, standard, fast, long_life}
use legion_linux_toolkit_rus.Hw.BatteryStats.{BatteryStats}
use legion_linux_toolkit_rus.Hw.Detect.{Capabilities}

abbrev text_or : String → HwResult String → String
text_or d (ok s) = s
text_or d (err e) = d

unfoldable pub profile_color : String → String
unfolding Profile.from_sysfs Profile.led_color Profile.hex
profile_color profile =
    text_or "#99a0b0" (map_ok (λ p. Profile.hex (Profile.led_color p)) (Profile.from_sysfs profile))

unfoldable pub profile_label : String → String
unfolding Profile.from_sysfs Profile.label
profile_label profile = text_or profile (map_ok Profile.label (Profile.from_sysfs profile))

unfoldable pub profile_labels : List String → List String
unfolding profile_label
profile_labels choices = map profile_label choices

abbrev icon_of : HwResult PowerProfile → String
icon_of (ok quiet) = "legion-toolkit-quiet"
icon_of (ok balanced) = "legion-toolkit-balanced"
icon_of (ok performance) = "legion-toolkit-performance"
icon_of (ok extreme) = "legion-toolkit-extreme"
icon_of (ok custom) = "legion-toolkit-custom"
icon_of (err e) = "legion-toolkit"

unfoldable pub tray_icon_name : String → String
unfolding Profile.from_sysfs
tray_icon_name profile = icon_of (Profile.from_sysfs profile)

unfoldable pub battery_label : String → String
unfolding Battery.from_sysfs Battery.label
battery_label mode = text_or mode (map_ok Battery.label (Battery.from_sysfs mode))

abbrev hint_of : HwResult ChargeMode → String
hint_of (ok standard) = "Charge to 100%"
hint_of (ok fast) = "Charge faster, warmer battery"
hint_of (ok long_life) = "Stop around 60–80% to extend battery life"
hint_of (err e) = ""

unfoldable pub battery_hint : String → String
unfolding Battery.from_sysfs
battery_hint mode = hint_of (Battery.from_sysfs mode)

unfoldable pub battery_labels : List String → List String × List String
unfolding battery_label battery_hint
battery_labels choices = (map battery_label choices, map battery_hint choices)

unfoldable pub format_fan : Option ℕ → String
unfolding show
format_fan (some r) = show r <> " RPM"
format_fan none = "No fan sensor (kernel too old)"

abbrev on_mains : Option Bool → String
on_mains (some true) = "Plugged in"
on_mains (some false) = "On battery"
on_mains none = "—"

module _ (F : Floats) where
  open F use {F64, of_u64, divide, show_fixed}

  unfoldable pub format_temp : Option F64 → String
  format_temp (some t) = show_fixed 1 t <> " °C"
  format_temp none = "—"

  unfoldable pub format_freq : Option ℕ → String
  format_freq (some k) = show_fixed 2 (divide (of_u64 k) (of_u64 1000000)) <> " GHz"
  format_freq none = "—"

  unfoldable pub format_micro : Option ℕ → String → String
  format_micro (some v) unit = show_fixed 1 (divide (of_u64 v) (of_u64 1000000)) <> " " <> unit
  format_micro none unit = "—"

  unfoldable pub format_pct : Option F64 → String
  format_pct (some p) = show_fixed 0 p <> "%"
  format_pct none = "—"

  abbrev capacity_text : Option ℕ → Option F64 → String
  capacity_text (some c) e = show c <> "%"
  capacity_text none e = format_pct e

  unfoldable pub battery_capacity_text : BatteryStats F → String
  unfolding format_pct show
  battery_capacity_text stats = capacity_text stats.capacity stats.capacity_from_energy

  unfoldable pub ac_text : BatteryStats F → String
  ac_text stats = on_mains stats.ac_online

unfoldable pub kernel_note : Capabilities → String
kernel_note caps =
    if caps.fan_rpm
    then "Fan speed comes from the kernel's hwmon sensors."
    else "This kernel exposes no fan sensor for this model, so fan speed cannot be shown. Fan curves have no upstream interface and are not offered."

unfoldable pub or_dash : Option String → String
or_dash none = "—"
or_dash (some v) = if v == "" then "—" else v
