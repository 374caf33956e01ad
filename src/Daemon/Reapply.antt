-- ===== src/Daemon/Reapply.antt =====
-- crates/legion-daemon/src/iface.rs: `reapply_state`, at the start and after a suspend.
pub mod Order
pub mod Nothing
pub mod Limits
pub mod Unknown
use legion_linux_toolkit_rus.Prelude.{ℕ, String, Option, none, some, List, [], ◌∷◌}
use legion_linux_toolkit_rus.Prelude.Result.{ok, err}
use legion_linux_toolkit_rus.Hw.Error.{HwResult}
use legion_linux_toolkit_rus.Hw.Sysfs.{Sysfs, Kernel, Action}
use legion_linux_toolkit_rus.Hw.Profile
use legion_linux_toolkit_rus.Hw.Profile.{
  PowerProfile, quiet, balanced, performance, extreme, custom,
}
use legion_linux_toolkit_rus.Hw.Battery
use legion_linux_toolkit_rus.Hw.Battery.{ChargeMode}
use legion_linux_toolkit_rus.Hw.FirmwareAttrs
use legion_linux_toolkit_rus.Hw.FirmwareAttrs.{PptAttr, AttrInfo}
use legion_linux_toolkit_rus.Daemon.Iface.{Daemon}

module _ (kernel : Kernel) where
  -- The steps of `reapply_state`, which log a failure and go on.
  abbrev attempt : Action → Sysfs → Sysfs
  attempt a root = (a root).1

  abbrev reapply_profile_parsed : HwResult PowerProfile → Sysfs → Sysfs
  reapply_profile_parsed (ok p) root = attempt (Profile.set kernel p) root
  reapply_profile_parsed (err e) root = root

  abbrev pub reapply_profile : Option String → Sysfs → Sysfs
  reapply_profile none root = root
  reapply_profile (some p) root = reapply_profile_parsed (Profile.from_sysfs p) root

  abbrev pub reapply_battery_parsed : HwResult ChargeMode → Sysfs → Sysfs
  reapply_battery_parsed (ok m) root = attempt (Battery.set_mode kernel m) root
  reapply_battery_parsed (err e) root = root

  abbrev pub reapply_battery : Option String → Sysfs → Sysfs
  reapply_battery none root = root
  reapply_battery (some m) root = reapply_battery_parsed (Battery.from_sysfs m) root

  abbrev pub reapply_limit : HwResult PptAttr → ℕ → Sysfs → Sysfs
  reapply_limit (ok a) watts root = attempt (FirmwareAttrs.write_attr kernel a watts) root
  reapply_limit (err e) watts root = root

  unfoldable pub reapply_limits : List (String × ℕ) → Sysfs → Sysfs
  reapply_limits [] root = root
  reapply_limits ((key, watts) ∷ rest) root =
      reapply_limits rest (reapply_limit (FirmwareAttrs.from_key key) watts root)

  unfoldable pub reapply_state : Daemon → Daemon
  unfolding reapply_limits
  reapply_state d = record d {
    root =
        reapply_limits d.state.ppt
          (reapply_battery d.state.battery_mode (reapply_profile d.state.profile d.root));
  }
