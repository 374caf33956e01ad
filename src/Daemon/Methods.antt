-- ===== src/Daemon/Methods.antt =====
-- crates/legion-daemon/src/iface.rs: the methods of the interface.
pub mod Authorization
pub mod Failure
pub mod Success
pub mod Limits
pub mod Effects
pub mod Durability
use legion_linux_toolkit_rus.Prelude.{
  ℕ, String, Bool, true, false, some, [], ◌∷◌, ◌++◌, if◌then◌else◌,
}
use legion_linux_toolkit_rus.Prelude.Result.{Result, ok, err}
use legion_linux_toolkit_rus.Hw.Error.{HwResult, plain}
use legion_linux_toolkit_rus.Hw.Profile
use legion_linux_toolkit_rus.Hw.Profile.{
  PowerProfile, quiet, balanced, performance, extreme, custom,
}
use legion_linux_toolkit_rus.Hw.Battery
use legion_linux_toolkit_rus.Hw.Battery.{ChargeMode}
use legion_linux_toolkit_rus.Hw.FirmwareAttrs
use legion_linux_toolkit_rus.Hw.FirmwareAttrs.{PptAttr, AttrInfo}
use legion_linux_toolkit_rus.Hw.Ideapad
use legion_linux_toolkit_rus.Hw.Ideapad.{Toggle}
use legion_linux_toolkit_rus.Hw.KbdBacklight
use legion_linux_toolkit_rus.Hw.Cpu
use legion_linux_toolkit_rus.Daemon.Error.{DaemonError, DaemonResult}
use legion_linux_toolkit_rus.Daemon.Auth.{check}
use legion_linux_toolkit_rus.Daemon.State
use legion_linux_toolkit_rus.Daemon.State.{State, StatePath, Storage, Disk}
use legion_linux_toolkit_rus.Daemon.Iface.{
  Signal, Outside, Method, Call, ◌>>=◌, ◌>>◌, lift, lift_hw, act, modify, gets,
}

abbrev is_custom : PowerProfile → Bool
is_custom custom = true
is_custom _ = false

-- The error of `set_ppt` outside the Custom profile.
abbrev pub requires_custom : PowerProfile → DaemonError
requires_custom current = DaemonError.custom_mode_required (
    plain "power limits require the Custom profile; current profile is "
    ∷ plain (Profile.as_sysfs current)
    ∷ [])

abbrev pub only_custom : PowerProfile → DaemonResult (Unit {0})
only_custom current = if is_custom current then ok tt else err (requires_custom current)

abbrev pub named_or : (PptAttr → String) → String → HwResult PptAttr → String
named_or name attr (ok a) = name a
named_or name attr (err e) = attr

module _ (W : Outside) where
  open W use {kernel, bus, storage, send}
  open bus use {Header}

  -- `persist`: the outcome of the save is logged only.
  unfoldable pub persist : Method (Unit {0})
  persist d =
      let (r, disk) = State.save storage d.state d.state_path d.disk in
      (ok tt, record d { disk = disk })

  unfoldable pub authorize : Header → Method (Unit {0})
  authorize hdr d = (check bus d.authorizer hdr, d)

  abbrev pub sent : Signal → Result String (Unit {0}) → Method (Unit {0})
  sent s (ok u) d = (ok tt, record d { signals = d.signals ++ s ∷ [] })
  sent s (err e) d = (err (DaemonError.zbus e), d)

  -- `…_changed(&emitter).await?`
  unfoldable pub emit : Signal → Method (Unit {0})
  emit s d = sent s (send d.signals s) d

  unfoldable pub notify_profile_changed : Method (Unit {0})
  notify_profile_changed = emit Signal.profile

  unfoldable pub set_profile : String → Header → Method (Unit {0})
  set_profile value hdr = do
    authorize hdr
    p ← lift_hw (Profile.from_user value)
    act (Profile.set kernel p)
    modify (λ s. record s { profile = some (Profile.as_sysfs p) })
    persist
    emit Signal.profile

  unfoldable pub set_battery_mode : String → Header → Method (Unit {0})
  set_battery_mode value hdr = do
    authorize hdr
    m ← lift_hw (Battery.from_user value)
    act (Battery.set_mode kernel m)
    modify (λ s. record s { battery_mode = some (Battery.as_sysfs m) })
    persist
    emit Signal.battery_mode

  unfoldable pub set_fn_lock : Bool → Header → Method (Unit {0})
  set_fn_lock value hdr = do
    authorize hdr
    act (Ideapad.set kernel Toggle.fn_lock value)
    emit Signal.fn_lock

  unfoldable pub set_camera_power : Bool → Header → Method (Unit {0})
  set_camera_power value hdr = do
    authorize hdr
    act (Ideapad.set kernel Toggle.camera_power value)
    emit Signal.camera_power

  unfoldable pub set_usb_charging : Bool → Header → Method (Unit {0})
  set_usb_charging value hdr = do
    authorize hdr
    act (Ideapad.set kernel Toggle.usb_charging value)
    emit Signal.usb_charging

  unfoldable pub set_kbd_backlight : ℕ → Header → Method (Unit {0})
  set_kbd_backlight value hdr = do
    authorize hdr
    act (KbdBacklight.set kernel value)
    emit Signal.kbd_backlight

  unfoldable pub set_cpu_boost : Bool → Header → Method (Unit {0})
  set_cpu_boost value hdr = do
    authorize hdr
    act (Cpu.set_boost kernel value)
    emit Signal.cpu_boost

  unfoldable pub set_ppt : String → ℕ → Header → Method (Unit {0})
  set_ppt attr watts hdr = do
    authorize hdr
    r ← gets Profile.get
    current ← lift_hw r
    lift (only_custom current)
    let key = named_or FirmwareAttrs.key attr (FirmwareAttrs.from_key attr)
    let dir_name = named_or FirmwareAttrs.dir_name attr (FirmwareAttrs.from_key attr)
    act (FirmwareAttrs.write_by_name kernel dir_name watts)
    modify (State.set_ppt key watts)
    persist

  unfoldable pub set_fan_mode : ℕ → Header → Method (Unit {0})
  set_fan_mode value hdr = do
    authorize hdr
    m ← lift_hw (Ideapad.from_value value)
    act (Ideapad.set_fan_mode kernel m)

  unfoldable pub handle : Call → Header → Method (Unit {0})
  unfolding set_profile set_battery_mode set_fn_lock set_camera_power set_usb_charging set_cpu_boost
      set_kbd_backlight set_fan_mode set_ppt
  handle (Call.set_profile v) = set_profile v
  handle (Call.set_battery_mode v) = set_battery_mode v
  handle (Call.set_fn_lock v) = set_fn_lock v
  handle (Call.set_camera_power v) = set_camera_power v
  handle (Call.set_usb_charging v) = set_usb_charging v
  handle (Call.set_cpu_boost v) = set_cpu_boost v
  handle (Call.set_kbd_backlight v) = set_kbd_backlight v
  handle (Call.set_fan_mode v) = set_fan_mode v
  handle (Call.set_ppt a w) = set_ppt a w
