-- ===== src/Tests/Gui.antt =====
-- The theorems about the window and the tray.
use legion_linux_toolkit_rus.Hw.FirmwareAttrs
use legion_linux_toolkit_rus.Hw.Sysfs
use legion_linux_toolkit_rus.Text
use legion_linux_toolkit_rus.Prelude.{String, none, List, [], ◌∷◌, ◌≡◌, refl, arith}
use legion_linux_toolkit_rus.Prelude.Result.{ok}
use legion_linux_toolkit_rus.Hw.FirmwareAttrs.{AttrInfo, read_by_name}
use legion_linux_toolkit_rus.Gui.Slider.{from_attr}
use legion_linux_toolkit_rus.Gui.Slider.Bounds.{from_attr-no_maximum}
use legion_linux_toolkit_rus.Gui.Tray
use legion_linux_toolkit_rus.Gui.Tray.{TrayHandle, from_snapshot, selected, update}
use legion_linux_toolkit_rus.Tests.Machine.{machine}

abbrev spl : AttrInfo
spl = record {
  key = "spl";
  display_name = "CPU PL1";
  current = 70;
  default = 60;
  min = 15;
  max = 115;
  step = 1;
}

-- An attribute of the machine whose range the firmware does not declare.
abbrev gpu_temp : AttrInfo
gpu_temp = record {
  key = "gpu_temp";
  display_name = "gpu_temp";
  current = 87;
  default = 0;
  min = 0;
  max = 4294967295;
  step = 1;
}

known : read_by_name machine "gpu_temp" ≡ ok gpu_temp
unfolding read_by_name Sysfs.exists Sysfs.read_parsed Text.parse_unsigned Text.trim
    Text.is_whitespace FirmwareAttrs.short_key Sysfs.read_opt Sysfs.read_parsed_opt
known = refl

panic_example : from_attr gpu_temp ≡ none
unfolding Sysfs.read_parsed_opt
panic_example = from_attr-no_maximum machine "gpu_temp" gpu_temp known refl (omega arith)

abbrev choices : List String
choices = "low-power" ∷ "balanced" ∷ []

abbrev handle : TrayHandle
handle = record { last = Tray.default; shown = Tray.default; updates = 0 }
