-- ===== src/Hw/Detect/Gates.antt =====
-- What the probe reports, against what the operations that write do.
use legion_linux_toolkit_rus.Prelude.{
  String, Bool, true, false, Option, none, some, ◌≡◌, refl, Bool-cases, inl, inr,
}
use legion_linux_toolkit_rus.Prelude.Float.{Floats}
use legion_linux_toolkit_rus.Prelude.Result.{err, map_err}
use legion_linux_toolkit_rus.Hw.Error.{HwError, from_io}
use legion_linux_toolkit_rus.Hw.Sysfs.{Sysfs, Kernel, Action, exists, write}
use legion_linux_toolkit_rus.Hw.Profile
use legion_linux_toolkit_rus.Hw.Profile.{PowerProfile}
use legion_linux_toolkit_rus.Hw.Battery
use legion_linux_toolkit_rus.Hw.Battery.{ChargeMode}
use legion_linux_toolkit_rus.Hw.Ideapad
use legion_linux_toolkit_rus.Hw.Ideapad.{Toggle, FanMode}
use legion_linux_toolkit_rus.Hw.Cpu
use legion_linux_toolkit_rus.Hw.Detect.{Capabilities, probe}

-- What can be set, but for the limits and the backlight, whose range is checked first.
pub data Setter : Type 0 where
  profile_to : PowerProfile → Setter
  mode_to : ChargeMode → Setter
  switch_to : Toggle → Bool → Setter
  fan_mode_to : FanMode → Setter
  boost_to : Bool → Setter

abbrev pub perform : Kernel → Setter → Action
perform K (profile_to p) = Profile.set K p
perform K (mode_to m) = Battery.set_mode K m
perform K (switch_to t on) = Ideapad.set K t on
perform K (fan_mode_to m) = Ideapad.set_fan_mode K m
perform K (boost_to on) = Cpu.set_boost K on

-- The capability that stands for it.
abbrev pub reported : Capabilities → Setter → Bool
reported c (profile_to p) = c.platform_profile
reported c (mode_to m) = c.charge_types
reported c (switch_to Toggle.fn_lock on) = c.fn_lock
reported c (switch_to Toggle.camera_power on) = c.camera_power
reported c (switch_to Toggle.usb_charging on) = c.usb_charging
reported c (switch_to Toggle.conservation_mode on) = c.conservation_mode
reported c (fan_mode_to m) = c.fan_mode
reported c (boost_to on) = c.cpu_boost

-- An operation on these files that writes a file that is there, or one that is not supported.
abbrev pub Gated : Kernel → Sysfs → Action → Bool → Type 0
Gated K root a true =
    (file value : String) × (root.has_path file ≡ true)
    × (a root ≡ (map_err from_io (K root file value).0, (K root file value).1))
Gated K root a false = a root ≡ (err HwError.not_supported, root)

Gated-write :
    (K : Kernel) (rel value : String) (root : Sysfs)
    → Gated K root (write K rel value) (exists root rel)
unfolding write exists
Gated-write K rel value root = elim (Bool-cases (root.has_path rel)) [
  | inl b ↦ rw b (rel, value, b, rw b refl)
  | inr b ↦ let h : write K rel value root ≡ (err HwError.not_supported, root) = rw b refl in rw b h
]

Gated-at_file :
    (K : Kernel) (value : String) (file : Option String) (root : Sysfs)
    → Gated K root (Profile.at_file K value file) (Profile.is_some_and (exists root) file)
Gated-at_file K value none root = refl
Gated-at_file K value (some file) root = Gated-write K file value root

-- What the probe reports is what can be set: an operation that sets the profile, the charge mode, a
-- switch, the fan mode or the boost writes a file that is there and answers as the kernel does
-- where the probe of the same files reports the capability, and fails as unsupported and leaves the
-- files where it does not.
pub probe-Gated :
    (F : Floats) (K : Kernel) (x : Setter) (root : Sysfs)
    → Gated K root (perform K x) (reported (probe F root) x)
unfolding probe Profile.set Battery.set_mode Ideapad.set Ideapad.set_fan_mode Cpu.set_boost
    Profile.available Battery.available Ideapad.has Ideapad.has_fan_mode Cpu.has_boost
probe-Gated F K (profile_to p) root =
    Gated-at_file K (Profile.as_sysfs p) (Profile.profile_file root) root
probe-Gated F K (mode_to m) root = Gated-write K _ (Battery.as_sysfs m) root
probe-Gated F K (switch_to Toggle.fn_lock on) root = Gated-write K _ _ root
probe-Gated F K (switch_to Toggle.camera_power on) root = Gated-write K _ _ root
probe-Gated F K (switch_to Toggle.usb_charging on) root = Gated-write K _ _ root
probe-Gated F K (switch_to Toggle.conservation_mode on) root = Gated-write K _ _ root
probe-Gated F K (fan_mode_to m) root = Gated-write K _ _ root
probe-Gated F K (boost_to on) root = Gated-write K _ _ root
