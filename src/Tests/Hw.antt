-- ===== src/Tests/Hw.antt =====
-- The theorems of the hardware library on the machine.
use legion_linux_toolkit_rus.Hw.Sysfs
use legion_linux_toolkit_rus.Text
use legion_linux_toolkit_rus.Prelude
use legion_linux_toolkit_rus.Prelude.{
  ℕ, ◌/◌, ◌*◌, ◌≤◌, String, Bool, true, false, Option, none, some, List, [], ◌∷◌, ◌≡◌, ◌≢◌, ◌⊎◌,
  ◌↔◌, refl, arith, map, inl, inr,
}
use legion_linux_toolkit_rus.Prelude.Result.{ok}
use legion_linux_toolkit_rus.Text.{◌<>◌, trim, to_ascii_lowercase}
use legion_linux_toolkit_rus.Hw.Sysfs.{Sysfs, exists, list_dir}
use legion_linux_toolkit_rus.Hw.Profile
use legion_linux_toolkit_rus.Hw.Profile.{
  PowerProfile, quiet, balanced, performance, extreme, custom,
}
use legion_linux_toolkit_rus.Hw.Profile.Device.{preferred, device_dir-preferred}
use legion_linux_toolkit_rus.Hw.Battery
use legion_linux_toolkit_rus.Hw.Battery.RoundTrip.{get_mode-set_mode}
use legion_linux_toolkit_rus.Hw.FirmwareAttrs
use legion_linux_toolkit_rus.Hw.FirmwareAttrs.{AttrInfo, read_by_name, write_by_name}
use legion_linux_toolkit_rus.Hw.FirmwareAttrs.Writes.{read_by_name-write_by_name, current_file}
use legion_linux_toolkit_rus.Hw.FirmwareAttrs.Listing.{In-list_all}
use legion_linux_toolkit_rus.Hw.Ideapad.{Toggle}
use legion_linux_toolkit_rus.Hw.Detect.{probe}
use legion_linux_toolkit_rus.Hw.Detect.Gates.{Gated, perform, reported, switch_to, probe-Gated}
use legion_linux_toolkit_rus.Tests.Machine.{
  whole, machine, device, keeping, keeping-IsAttribute, selecting, selecting-ShowsSelection,
}

found : Profile.device_dir machine ≡ some device
unfolding Profile.device_dir trim Text.is_whitespace
found = refl

device_example : Profile.device_dir machine ≡ preferred machine (list_dir machine Profile.class_dir)
device_example = device_dir-preferred machine

abbrev marks : List (Battery.ChargeMode × Bool)
marks = (Battery.standard, false) ∷ (Battery.fast, true) ∷ (Battery.long_life, false) ∷ []

set_mode_example :
    Battery.get_mode (Battery.set_mode selecting Battery.long_life machine).1 ≡ ok Battery.long_life
unfolding Battery.set_mode
set_mode_example =
    get_mode-set_mode selecting Battery.all selecting-ShowsSelection machine Battery.long_life refl
      refl

abbrev spl : AttrInfo
spl = record {
  key = "spl";
  display_name = "ppt_pl1_spl";
  current = 70;
  default = 0;
  min = 15;
  max = 115;
  step = 1;
}

known : read_by_name machine "ppt_pl1_spl" ≡ ok spl
unfolding read_by_name exists Sysfs.read_parsed Text.parse_unsigned trim Text.is_whitespace
    FirmwareAttrs.short_key Sysfs.read_opt Sysfs.read_parsed_opt
known = refl

write_limit_example :
    read_by_name (write_by_name keeping "ppt_pl1_spl" 80 machine).1 "ppt_pl1_spl"
    ≡ ok (record spl { current = 80 })
unfolding write_by_name exists Sysfs.read_parsed Text.parse_unsigned trim Text.is_whitespace
    Sysfs.read_parsed_opt
write_limit_example =
    read_by_name-write_by_name keeping "ppt_pl1_spl" 80 machine
      (keeping-IsAttribute (current_file "ppt_pl1_spl")) (omega arith) spl known refl

list_all_example : Prelude.In spl (FirmwareAttrs.list_all machine)
list_all_example =
    In-list_all machine ("ppt_pl1_spl" ∷ "gpu_temp" ∷ []) "ppt_pl1_spl" spl refl (inl refl) known

switch_reported_example :
    Gated keeping machine
      (perform keeping (switch_to Toggle.fn_lock true))
      (reported (probe whole machine) (switch_to Toggle.fn_lock true))
switch_reported_example = probe-Gated whole keeping (switch_to Toggle.fn_lock true) machine
