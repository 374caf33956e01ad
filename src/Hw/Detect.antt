-- ===== src/Hw/Detect.antt =====
-- crates/legion-hw/src/detect.rs: the probe of every interface.
pub mod Gates
use legion_linux_toolkit_rus.Prelude.{
  ℕ, String, Bool, true, false, not, ◌||◌, Option, none, some, List, [], ◌==◌, map, any,
}
use legion_linux_toolkit_rus.Prelude.Float.{Floats}
use legion_linux_toolkit_rus.Prelude.Result.{ok, err, to_option}
use legion_linux_toolkit_rus.Text.{to_ascii_lowercase, contains}
use legion_linux_toolkit_rus.Hw.Error.{HwResult}
use legion_linux_toolkit_rus.Hw.Sysfs.{Sysfs, read_opt, exists}
use legion_linux_toolkit_rus.Hw.Profile
use legion_linux_toolkit_rus.Hw.Profile.{PowerProfile}
use legion_linux_toolkit_rus.Hw.Battery
use legion_linux_toolkit_rus.Hw.Battery.{ChargeMode, ChargeTypes}
use legion_linux_toolkit_rus.Hw.FirmwareAttrs
use legion_linux_toolkit_rus.Hw.FirmwareAttrs.{PptAttr}
use legion_linux_toolkit_rus.Hw.Ideapad
use legion_linux_toolkit_rus.Hw.KbdBacklight
use legion_linux_toolkit_rus.Hw.Cpu
use legion_linux_toolkit_rus.Hw.Fan

pub record Capabilities : Type 0 where
  pub product_family : Option String
  pub product_name : Option String
  pub board_name : Option String
  pub is_legion : Bool
  pub platform_profile : Bool
  pub platform_profile_driver : Option String
  pub profile_choices : List String
  pub firmware_attrs : Bool
  pub firmware_attr_names : List String
  pub ppt : Bool
  pub charge_types : Bool
  pub charge_type_choices : List String
  pub battery : Bool
  pub ac_adapter : Bool
  pub fn_lock : Bool
  pub camera_power : Bool
  pub usb_charging : Bool
  pub conservation_mode : Bool
  pub fan_mode : Bool
  pub kbd_backlight : Bool
  pub kbd_backlight_max : Option ℕ
  pub cpu_boost : Bool
  pub cpu_temp : Bool
  pub fan_rpm : Bool

-- `Capabilities::default()`
abbrev pub default : Capabilities
default = record {
  product_family = none;
  product_name = none;
  board_name = none;
  is_legion = false;
  platform_profile = false;
  platform_profile_driver = none;
  profile_choices = [];
  firmware_attrs = false;
  firmware_attr_names = [];
  ppt = false;
  charge_types = false;
  charge_type_choices = [];
  battery = false;
  ac_adapter = false;
  fn_lock = false;
  camera_power = false;
  usb_charging = false;
  conservation_mode = false;
  fan_mode = false;
  kbd_backlight = false;
  kbd_backlight_max = none;
  cpu_boost = false;
  cpu_temp = false;
  fan_rpm = false;
}

unfoldable pub is_empty : Capabilities → Bool
is_empty c = not (
    c.platform_profile || c.firmware_attrs || c.charge_types || c.fn_lock || c.camera_power
    || c.usb_charging || c.fan_mode || c.kbd_backlight || c.cpu_boost)

-- A text that names a Legion or LOQ machine.
abbrev hit : Option String → Bool
hit none = false
hit (some s) = let t = to_ascii_lowercase s in contains t "legion" || contains t "loq"

unfoldable pub is_legion : Sysfs → Bool
unfolding read_opt to_ascii_lowercase contains
is_legion root =
    hit (read_opt root "sys/class/dmi/id/product_family")
    || hit (read_opt root "sys/class/dmi/id/product_name")

abbrev pub is_some {ℓ} : {A : Type ℓ} → Option A → Bool
is_some none = false
is_some (some a) = true

abbrev pub profile_texts : HwResult (List PowerProfile) → List String
profile_texts (ok ps) = map Profile.as_sysfs ps
profile_texts (err e) = []

abbrev pub charge_texts : HwResult ChargeTypes → List String
charge_texts (ok c) = map Battery.as_sysfs c.available
charge_texts (err e) = []

-- One of the three power limits is among the names.
abbrev pub has_ppt : List String → Bool
has_ppt names = any (λ a. any (λ n. n == FirmwareAttrs.dir_name a) names) FirmwareAttrs.all

module _ (F : Floats) where
  unfoldable pub probe : Sysfs → Capabilities
  probe root = record {
    product_family = read_opt root "sys/class/dmi/id/product_family";
    product_name = read_opt root "sys/class/dmi/id/product_name";
    board_name = read_opt root "sys/class/dmi/id/board_name";
    is_legion = is_legion root;
    platform_profile = Profile.available root;
    platform_profile_driver = Profile.driver_name root;
    profile_choices = profile_texts (Profile.choices root);
    firmware_attrs = FirmwareAttrs.available root;
    firmware_attr_names = FirmwareAttrs.available_attrs root;
    ppt = has_ppt (FirmwareAttrs.available_attrs root);
    charge_types = Battery.available root;
    charge_type_choices = charge_texts (Battery.charge_types root);
    battery = exists root "sys/class/power_supply/BAT0/capacity";
    ac_adapter = is_some (Battery.ac_online root);
    fn_lock = Ideapad.has root Ideapad.fn_lock;
    camera_power = Ideapad.has root Ideapad.camera_power;
    usb_charging = Ideapad.has root Ideapad.usb_charging;
    conservation_mode = Ideapad.has root Ideapad.conservation_mode;
    fan_mode = Ideapad.has_fan_mode root;
    kbd_backlight = KbdBacklight.available root;
    kbd_backlight_max = to_option (KbdBacklight.max root);
    cpu_boost = Cpu.has_boost root;
    cpu_temp = is_some (Cpu.temp_celsius F root);
    fan_rpm = Fan.available root;
  }
