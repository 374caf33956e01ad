-- ===== src/Daemon/Reports.antt =====
-- crates/legion-daemon/src/iface.rs: what the daemon reports as a text: the capabilities, the power
-- limits and the status.
use legion_linux_toolkit_rus.Prelude.{ℕ, String, Bool, Option, List, [], ◌∷◌}
use legion_linux_toolkit_rus.Prelude.Float.{Floats}
use legion_linux_toolkit_rus.Prelude.Result.{Result, ok, err, map_err, map_ok, to_option}
use legion_linux_toolkit_rus.Hw.Error.{plain}
use legion_linux_toolkit_rus.Hw.Sysfs.{Sysfs}
use legion_linux_toolkit_rus.Hw.Profile
use legion_linux_toolkit_rus.Hw.Battery
use legion_linux_toolkit_rus.Hw.BatteryStats
use legion_linux_toolkit_rus.Hw.FirmwareAttrs
use legion_linux_toolkit_rus.Hw.Ideapad
use legion_linux_toolkit_rus.Hw.KbdBacklight
use legion_linux_toolkit_rus.Hw.Cpu
use legion_linux_toolkit_rus.Hw.Fan
use legion_linux_toolkit_rus.Hw.Detect
use legion_linux_toolkit_rus.Daemon.Error.{DaemonError, DaemonResult}
use legion_linux_toolkit_rus.Daemon.Property.{profile_choices}
use legion_linux_toolkit_rus.Bus.{Json}

-- `env!("CARGO_PKG_VERSION")`, which the workspace's Cargo.toml sets.
unfoldable pub version : String
version = "1.0.0-alpha1"

-- `DaemonError::Failed(e.to_string())` on serde's error
abbrev pub written : Result String String → DaemonResult String
written r = map_err (λ e. DaemonError.failed (plain e ∷ [])) r

abbrev pub text_or_empty : Result String String → String
text_or_empty (ok t) = t
text_or_empty (err e) = ""

module _ (J : Json) where
  unfoldable pub get_ppt : Sysfs → DaemonResult String
  unfolding FirmwareAttrs.list_all
  get_ppt root = written (J.attrs_to_string (FirmwareAttrs.list_all root))

  module _ (F : Floats) where
    unfoldable pub capabilities : Sysfs → String
    unfolding Detect.probe
    capabilities root = text_or_empty (J.capabilities_to_json (Detect.probe F root))

module _ (F : Floats) where
  -- The object that `status` writes, with its keys.
  pub record Status : Type 0 where
    pub capabilities : Detect.Capabilities
    pub profile : Option String
    pub profile_label : Option String
    pub profile_choices : List String
    pub battery_mode : Option String
    pub battery : BatteryStats.BatteryStats F
    pub ppt : List FirmwareAttrs.AttrInfo
    pub fn_lock : Option Bool
    pub camera_power : Option Bool
    pub usb_charging : Option Bool
    pub fan_mode : Option String
    pub fan_rpm : Option ℕ
    pub kbd_backlight : Option ℕ
    pub kbd_backlight_max : Option ℕ
    pub cpu : Cpu.CpuInfo F

  unfoldable pub status_of : Sysfs → Status
  unfolding Detect.probe Profile.get Profile.as_sysfs Profile.label profile_choices Battery.get_mode
      Battery.as_sysfs BatteryStats.stats FirmwareAttrs.list_all Ideapad.get Ideapad.get_fan_mode
      Ideapad.fan_label Fan.rpm KbdBacklight.get KbdBacklight.max Cpu.info
  status_of root = record {
    capabilities = Detect.probe F root;
    profile = to_option (map_ok Profile.as_sysfs (Profile.get root));
    profile_label = to_option (map_ok Profile.label (Profile.get root));
    profile_choices = profile_choices root;
    battery_mode = to_option (map_ok Battery.as_sysfs (Battery.get_mode root));
    battery = BatteryStats.stats F root;
    ppt = FirmwareAttrs.list_all root;
    fn_lock = Ideapad.get root Ideapad.fn_lock;
    camera_power = Ideapad.get root Ideapad.camera_power;
    usb_charging = Ideapad.get root Ideapad.usb_charging;
    fan_mode = to_option (map_ok Ideapad.fan_label (Ideapad.get_fan_mode root));
    fan_rpm = Fan.rpm root;
    kbd_backlight = to_option (KbdBacklight.get root);
    kbd_backlight_max = to_option (KbdBacklight.max root);
    cpu = Cpu.info F root;
  }

  -- `status`, where `to_string` is serde's.
  unfoldable pub status : (Status → Result String String) → Sysfs → DaemonResult String
  unfolding status_of
  status to_string root = written (to_string (status_of root))
