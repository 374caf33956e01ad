-- ===== src/Gui/Window.antt =====
-- crates/legion-gui/src/main.rs: the properties of the window, and what sets them: a snapshot of
-- the daemon, the files that the window reads itself, and the callbacks.
pub mod Sliders
use legion_linux_toolkit_rus.Prelude.{ℕ, String, Bool, true, Option, none, some, List, ◌==◌}
use legion_linux_toolkit_rus.Prelude.Float.{Floats}
use legion_linux_toolkit_rus.Prelude.Result.{ok, err}
use legion_linux_toolkit_rus.Text.Decimal.{show}
use legion_linux_toolkit_rus.Hw.Error.{HwResult}
use legion_linux_toolkit_rus.Hw.Sysfs.{Sysfs}
use legion_linux_toolkit_rus.Hw.Detect.{Capabilities}
use legion_linux_toolkit_rus.Hw.Cpu
use legion_linux_toolkit_rus.Hw.Fan
use legion_linux_toolkit_rus.Hw.BatteryStats
use legion_linux_toolkit_rus.Hw.Ideapad
use legion_linux_toolkit_rus.Hw.Ideapad.{FanMode}
use legion_linux_toolkit_rus.Gui.Slider.{ℤ, pos, negsuc, as_i32, SliderBounds, find_bounds}
use legion_linux_toolkit_rus.Gui.Color.{Rgb, profile_rgb}
use legion_linux_toolkit_rus.Gui.Labels
use legion_linux_toolkit_rus.Gui.Snapshot
use legion_linux_toolkit_rus.Gui.Snapshot.{Snapshot, Request}

-- The properties that `apply_local_stats` sets.
pub record LocalStats : Type 0 where
  pub cpu_temp : String
  pub cpu_freq : String
  pub cpu_governor : String
  pub fan_rpm : String
  pub battery_capacity : String
  pub battery_status : String
  pub ac_state : String
  pub battery_health : String
  pub battery_cycles : String
  pub battery_power : String
  pub battery_voltage : String
  pub fan_mode : String

-- `AppWindow`, as far as the program sets its properties. The value, the minimum and the maximum
-- of a limit stand together.
pub record Window : Type 0 where
  pub daemon_connected : Bool
  pub daemon_error : String
  pub daemon_version : String
  pub machine : String
  pub family : String
  pub profile_driver : String
  pub profile_supported : Bool
  pub profile_choices : List String
  pub profile_labels : List String
  pub current_profile : String
  pub current_profile_label : String
  pub profile_color : Rgb
  pub custom_active : Bool
  pub battery_supported : Bool
  pub battery_mode : String
  pub battery_choices : List String
  pub battery_labels : List String
  pub battery_hints : List String
  pub ppt_supported : Bool
  pub spl : SliderBounds
  pub sppt : SliderBounds
  pub fppt : SliderBounds
  pub has_fn_lock : Bool
  pub has_camera : Bool
  pub has_usb_charging : Bool
  pub has_backlight : Bool
  pub has_boost : Bool
  pub fn_lock : Bool
  pub camera : Bool
  pub usb_charging : Bool
  pub boost : Bool
  pub backlight : ℤ
  pub backlight_max : ℤ
  pub kernel_note : String
  pub toast : String
  pub local : LocalStats

abbrev or_two : Option ℕ → ℕ
or_two none = 2
or_two (some n) = n

-- The window, once its colour and its three sliders are there; one that is not is a panic.
abbrev pub painted :
    Snapshot
    → Window
    → Option Rgb
    → Option SliderBounds
    → Option SliderBounds
    → Option SliderBounds
    → Option Window
painted snap ui (some color) (some spl) (some sppt) (some fppt) =
    let caps = snap.capabilities in
    some (record ui {
      daemon_connected = true;
      daemon_error = "";
      daemon_version = Labels.or_dash (some snap.daemon_version);
      machine = Labels.or_dash caps.product_name;
      family = Labels.or_dash caps.product_family;
      profile_driver = Labels.or_dash caps.platform_profile_driver;
      profile_supported = caps.platform_profile;
      profile_choices = snap.profile_choices;
      profile_labels = Labels.profile_labels snap.profile_choices;
      current_profile = snap.profile;
      current_profile_label = Labels.profile_label snap.profile;
      profile_color = color;
      custom_active = snap.profile == "custom";
      battery_supported = caps.charge_types;
      battery_mode = snap.battery_mode;
      battery_choices = caps.charge_type_choices;
      battery_labels = (Labels.battery_labels caps.charge_type_choices).0;
      battery_hints = (Labels.battery_labels caps.charge_type_choices).1;
      ppt_supported = caps.ppt;
      spl = spl;
      sppt = sppt;
      fppt = fppt;
      has_fn_lock = caps.fn_lock;
      has_camera = caps.camera_power;
      has_usb_charging = caps.usb_charging;
      has_backlight = caps.kbd_backlight;
      has_boost = caps.cpu_boost;
      fn_lock = snap.fn_lock;
      camera = snap.camera;
      usb_charging = snap.usb_charging;
      boost = snap.boost;
      backlight = as_i32 snap.backlight;
      backlight_max = as_i32 (or_two caps.kbd_backlight_max);
      kernel_note = Labels.kernel_note caps;
    })
painted snap ui none spl sppt fppt = none
painted snap ui (some color) none sppt fppt = none
painted snap ui (some color) (some spl) none fppt = none
painted snap ui (some color) (some spl) (some sppt) none = none

unfoldable pub apply_snapshot : Snapshot → Window → Option Window
unfolding profile_rgb find_bounds as_i32 Labels.or_dash Labels.profile_labels Labels.profile_label
    Labels.battery_labels Labels.kernel_note
apply_snapshot snap ui =
    painted snap ui (profile_rgb snap.profile) (find_bounds snap.ppt "spl")
      (find_bounds snap.ppt "sppt") (find_bounds snap.ppt "fppt")

abbrev cycles : Option ℕ → String
cycles (some c) = show c
cycles none = "—"

abbrev fan_mode_text : HwResult FanMode → String
fan_mode_text (ok m) = Ideapad.fan_label m
fan_mode_text (err e) = "—"

module _ (F : Floats) where
  unfoldable pub apply_local_stats : Sysfs → Window → Window
  unfolding show Cpu.info Fan.rpm BatteryStats.stats Ideapad.get_fan_mode Ideapad.fan_label
      Labels.format_temp Labels.format_freq Labels.or_dash Labels.format_fan
      Labels.battery_capacity_text Labels.ac_text Labels.format_pct Labels.format_micro
  apply_local_stats root ui =
      let info = Cpu.info F root in
      let stats = BatteryStats.stats F root in
      record ui {
        local = record {
          cpu_temp = Labels.format_temp F info.temp_celsius;
          cpu_freq = Labels.format_freq F info.cur_freq_khz;
          cpu_governor = Labels.or_dash info.governor;
          fan_rpm = Labels.format_fan (Fan.rpm root);
          battery_capacity = Labels.battery_capacity_text F stats;
          battery_status = Labels.or_dash stats.status;
          ac_state = Labels.ac_text F stats;
          battery_health = Labels.format_pct F stats.health_pct;
          battery_cycles = cycles stats.cycle_count;
          battery_power = Labels.format_micro F stats.power_now "W";
          battery_voltage = Labels.format_micro F stats.voltage_now "V";
          fan_mode = fan_mode_text (Ideapad.get_fan_mode root);
        };
      }

-- The callbacks that `wire_callbacks` connects to a request.
pub data Callback : Type 0 where
  select_profile select_battery_mode : String → Callback
  set_fn_lock set_camera set_usb_charging set_boost : Bool → Callback
  set_backlight : ℤ → Callback
  set_ppt : String → ℤ → Callback

-- `n.max(0) as u32`
abbrev pub max_zero : ℤ → ℕ
max_zero (pos n) = n
max_zero (negsuc n) = 0

-- The request that a callback sends.
unfoldable pub wire_callbacks : Callback → Request
wire_callbacks (select_profile p) = Request.set_profile p
wire_callbacks (select_battery_mode m) = Request.set_battery_mode m
wire_callbacks (set_fn_lock v) = Request.set_fn_lock v
wire_callbacks (set_camera v) = Request.set_camera_power v
wire_callbacks (set_usb_charging v) = Request.set_usb_charging v
wire_callbacks (set_boost v) = Request.set_cpu_boost v
wire_callbacks (set_backlight level) = Request.set_kbd_backlight (max_zero level)
wire_callbacks (set_ppt attr watts) = Request.set_ppt attr (max_zero watts)

-- `on_dismiss_toast`
unfoldable pub dismiss_toast : Window → Window
dismiss_toast ui = record ui { toast = "" }
