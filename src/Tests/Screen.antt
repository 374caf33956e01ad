-- ===== src/Tests/Screen.antt =====
-- A window and a tray that show nothing yet, and the daemon of the machine as their server.
use legion_linux_toolkit_rus.Prelude.{String, true, false, some, [], refl}
use legion_linux_toolkit_rus.Bus.{ZbusError, other}
use legion_linux_toolkit_rus.Daemon.Error.{DaemonError}
use legion_linux_toolkit_rus.Gui.Slider
use legion_linux_toolkit_rus.Gui.Slider.{SliderBounds, pos, from_attr}
use legion_linux_toolkit_rus.Gui.Snapshot.{Snapshot, Server}
use legion_linux_toolkit_rus.Gui.Tray
use legion_linux_toolkit_rus.Gui.Window.{Window, LocalStats}
use legion_linux_toolkit_rus.Gui.Client.{Screen}
use legion_linux_toolkit_rus.Gui.Client.Served.{PropertyCache, IsCache, with_property, served}
use legion_linux_toolkit_rus.Gui.Tray.{MenuItem, switch_items}
use legion_linux_toolkit_rus.Tests.Machine.{whole}
use legion_linux_toolkit_rus.Tests.Host.{outside}
use legion_linux_toolkit_rus.Tests.Json.{json}

abbrev pub failed : DaemonError → ZbusError
failed e = other "the method failed"

abbrev pub text_of : ZbusError → String
text_of e = "an error of the bus"

-- A cache that holds what a snapshot holds.
abbrev pub cache : PropertyCache
cache = record {
  Held = Snapshot;
  filled = λ now. now;
  received = with_property;
  reads = λ held. held;
}

pub cache-IsCache : IsCache cache
cache-IsCache = record { reads-filled = λ now. refl; reads-received = λ s now held. refl }

abbrev pub server : Server
server = served cache whole json outside true failed text_of

abbrev pub local : LocalStats
local = record {
  cpu_temp = "";
  cpu_freq = "";
  cpu_governor = "";
  fan_rpm = "";
  battery_capacity = "";
  battery_status = "";
  ac_state = "";
  battery_health = "";
  battery_cycles = "";
  battery_power = "";
  battery_voltage = "";
  fan_mode = "";
}

abbrev pub window : Window
window = record {
  daemon_connected = false;
  daemon_error = "";
  daemon_version = "";
  machine = "";
  family = "";
  profile_driver = "";
  profile_supported = false;
  profile_choices = [];
  profile_labels = [];
  current_profile = "";
  current_profile_label = "";
  profile_color = (0, 0, 0);
  custom_active = false;
  battery_supported = false;
  battery_mode = "";
  battery_choices = [];
  battery_labels = [];
  battery_hints = [];
  ppt_supported = false;
  spl = Slider.default;
  sppt = Slider.default;
  fppt = Slider.default;
  has_fn_lock = false;
  has_camera = false;
  has_usb_charging = false;
  has_backlight = false;
  has_boost = false;
  fn_lock = false;
  camera = false;
  usb_charging = false;
  boost = false;
  backlight = pos 0;
  backlight_max = pos 2;
  kernel_note = "";
  toast = "";
  local = local;
}

abbrev pub screen : Screen
screen = record {
  window = window;
  tray = some (record { last = Tray.default; shown = Tray.default; updates = 0 });
}
