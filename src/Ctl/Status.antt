-- ===== src/Ctl/Status.antt =====
-- crates/legion-ctl/src/commands.rs: the status report, line by line.
pub mod Agreement
use legion_linux_toolkit_rus.Prelude.{
  ℕ, String, Bool, true, false, ◌&&◌, Option, none, some, List, [], ◌∷◌, ◌++◌, map, is_empty,
  if◌then◌else◌,
}
use legion_linux_toolkit_rus.Prelude.Float.{Floats}
use legion_linux_toolkit_rus.Prelude.Result.{Result, ok, err, map_ok, to_option, unwrap_or}
use legion_linux_toolkit_rus.Text.{join}
use legion_linux_toolkit_rus.Text.Decimal.{show}
use legion_linux_toolkit_rus.Hw.Error.{HwResult, Message, plain}
use legion_linux_toolkit_rus.Hw.Sysfs.{Sysfs}
use legion_linux_toolkit_rus.Hw.Detect
use legion_linux_toolkit_rus.Hw.Detect.{Capabilities}
use legion_linux_toolkit_rus.Hw.Profile
use legion_linux_toolkit_rus.Hw.Battery
use legion_linux_toolkit_rus.Hw.Battery.{ChargeMode}
use legion_linux_toolkit_rus.Hw.BatteryStats
use legion_linux_toolkit_rus.Hw.FirmwareAttrs.{AttrInfo}
use legion_linux_toolkit_rus.Hw.Ideapad
use legion_linux_toolkit_rus.Hw.Ideapad.{FanMode, Toggle}
use legion_linux_toolkit_rus.Hw.KbdBacklight
use legion_linux_toolkit_rus.Hw.Cpu
use legion_linux_toolkit_rus.Hw.Fan
use legion_linux_toolkit_rus.Daemon.Iface.{Signal}
use legion_linux_toolkit_rus.Ctl.Backend.{Proxy, Backend, daemon, direct}
use legion_linux_toolkit_rus.Ctl.Commands.{
  ToggleKind, cli_name, show_on_off, described, label_or_unknown, read_ppt,
}

abbrev pub line : String → String → Message
line key value = plain key ∷ plain ": " ∷ plain value ∷ []

-- A line for a value that is there.
abbrev pub lines_of {ℓ} : {A : Type ℓ} → (A → Message) → Option A → List Message
lines_of f none = []
lines_of f (some a) = f a ∷ []

abbrev pub when : Bool → List Message → List Message
when b lines = if b then lines else []

unfoldable pub identity_lines : Capabilities → List Message
identity_lines caps =
    lines_of (line "machine") caps.product_name ++ lines_of (line "family") caps.product_family

unfoldable pub daemon_line : Backend → Message
daemon_line daemon = line "daemon" "running"
daemon_line direct = line "daemon" "not running"

abbrev pub unsupported : List Message
unsupported =
    line "supported" "no"
    ∷ line "hint" "the lenovo-wmi-gamezone driver does not appear to be loaded"
    ∷ []

abbrev pub profile_line : String → Message
profile_line c =
    described "profile" c (label_or_unknown (map_ok Profile.label (Profile.from_sysfs c)))

-- The lines of the profile, whose token `current` is read over the daemon or from the files.
unfoldable pub profile_lines : Capabilities → Option String → List Message
unfolding Profile.label Profile.from_sysfs join
profile_lines caps current = when caps.platform_profile (
    lines_of profile_line current
    ++ lines_of (line "profile-driver") caps.platform_profile_driver
    ++ (if is_empty caps.profile_choices
        then []
        else line "profile-choices" (join caps.profile_choices) ∷ []))

abbrev ppt_line : AttrInfo → Message
ppt_line a =
    plain "ppt-"
    ∷ plain a.key
    ∷ plain ": "
    ∷ plain (show a.current)
    ∷ plain " W (range "
    ∷ plain (show a.min)
    ∷ plain "–"
    ∷ plain (show a.max)
    ∷ plain ")"
    ∷ []

unfoldable pub ppt_lines : Capabilities → Result Message (List AttrInfo) → List Message
unfolding show
ppt_lines caps all = when caps.ppt (map ppt_line (unwrap_or [] all))

abbrev mode_line : ChargeMode → Message
mode_line m = described "battery-mode" (Battery.as_sysfs m) (Battery.label m)

abbrev percent_line : String → String → Message
percent_line key value = plain key ∷ plain ": " ∷ plain value ∷ plain "%" ∷ []

abbrev online : Bool → String
online ac = if ac then "online" else "offline"

-- One of the switches: the capability, and what the file says.
abbrev switch_lines : Sysfs → Bool → ToggleKind → Toggle → List Message
switch_lines root cap kind t =
    when cap (lines_of (λ v. line (cli_name kind) (show_on_off v)) (Ideapad.get root t))

abbrev fan_rpm_line : Option ℕ → Message
fan_rpm_line (some rpm) = line "fan-rpm" (show rpm)
fan_rpm_line none = line "fan-rpm" "unavailable (no fan sensor on this kernel)"

abbrev or_two : Option ℕ → ℕ
or_two none = 2
or_two (some n) = n

abbrev level_line : Capabilities → ℕ → Message
level_line caps level =
    plain "backlight: "
    ∷ plain (show level)
    ∷ plain " (max "
    ∷ plain (show (or_two caps.kbd_backlight_max))
    ∷ plain ")"
    ∷ []

module _ (F : Floats) where
  open F use {of_u64, divide, show_fixed}

  unfoldable pub battery_lines : Capabilities → Sysfs → List Message
  unfolding Battery.get_mode Battery.as_sysfs Battery.label BatteryStats.stats show
  battery_lines caps root =
      let stats = BatteryStats.stats F root in
      when caps.charge_types (lines_of mode_line (to_option (Battery.get_mode root)))
      ++ lines_of (λ c. percent_line "battery-capacity" (show c)) stats.capacity
      ++ lines_of (line "battery-status") stats.status
      ++ lines_of (λ h. percent_line "battery-health" (show_fixed 1 h)) stats.health_pct
      ++ lines_of (λ c. line "battery-cycles" (show c)) stats.cycle_count
      ++ lines_of (λ ac. line "ac" (online ac)) stats.ac_online

  unfoldable pub switches_lines : Capabilities → Sysfs → List Message
  unfolding cli_name Ideapad.get Ideapad.get_fan_mode Ideapad.fan_label Fan.rpm show
      KbdBacklight.get
  switches_lines caps root =
      switch_lines root caps.fn_lock ToggleKind.fn_lock Toggle.fn_lock
      ++ switch_lines root caps.camera_power ToggleKind.camera Toggle.camera_power
      ++ switch_lines root caps.usb_charging ToggleKind.usb_charging Toggle.usb_charging
      ++ when caps.fan_mode (
          lines_of (λ m. line "fan-mode" (Ideapad.fan_label m))
            (to_option (Ideapad.get_fan_mode root)))
      ++ fan_rpm_line (Fan.rpm root)
        ∷ when caps.kbd_backlight (lines_of (level_line caps) (to_option (KbdBacklight.get root)))

  unfoldable pub cpu_lines : Sysfs → List Message
  unfolding Cpu.info
  cpu_lines root =
      let info = Cpu.info F root in
      lines_of (λ b. line "cpu-boost" (show_on_off b)) info.boost
      ++ lines_of (line "cpu-governor") info.governor
      ++ lines_of (line "cpu-epp") info.epp
      ++ lines_of
          (λ f.
            plain "cpu-freq: "
            ∷ plain (show_fixed 2 (divide (of_u64 f) (of_u64 1000000)))
            ∷ plain " GHz"
            ∷ [])
          info.cur_freq_khz
      ++ lines_of (λ t. plain "cpu-temp: " ∷ plain (show_fixed 1 t) ∷ plain " C" ∷ [])
          info.temp_celsius

  -- The lines below the daemon's, from the capabilities, the files, the profile's token and the
  -- power limits.
  unfoldable pub body_of :
      Capabilities → Sysfs → Option String → Result Message (List AttrInfo) → List Message
  unfolding Detect.is_empty profile_lines ppt_lines battery_lines switches_lines cpu_lines
  body_of caps root current all =
      if Detect.is_empty caps
      then unsupported
      else (profile_lines caps current
          ++ ppt_lines caps all
          ++ battery_lines caps root
          ++ switches_lines caps root
          ++ cpu_lines root)

  module _ (P : Proxy) where
    open P use {World, files, get_string}

    -- The profile's token, as `status` reads it; a failure is no token.
    unfoldable pub current_profile : Backend → World → Option String
    unfolding Profile.get Profile.as_sysfs
    current_profile daemon w = to_option (get_string Signal.profile w)
    current_profile direct w = to_option (map_ok Profile.as_sysfs (Profile.get (files w)))

    unfoldable pub body : Backend → World → List Message
    unfolding body_of current_profile Detect.probe legion_linux_toolkit_rus.Ctl.Commands.read_ppt
    body b w =
        let root = files w in
        body_of (Detect.probe F root) root (current_profile b w) (read_ppt P b w)

    -- The lines that `status` prints; it succeeds and changes nothing.
    unfoldable pub status : Backend → World → List Message
    unfolding identity_lines daemon_line body Detect.probe
    status b w = identity_lines (Detect.probe F (files w)) ++ daemon_line b ∷ body b w
