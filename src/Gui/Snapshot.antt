-- ===== src/Gui/Snapshot.antt =====
-- crates/legion-gui/src/bus.rs: what the window displays, how it is read from the daemon, what the
-- window asks of the daemon, and the toast of a failure.
use legion_linux_toolkit_rus.Prelude.{
  ℕ, String, Bool, true, false, Option, none, some, List, [], ◌==◌, if◌then◌else◌,
}
use legion_linux_toolkit_rus.Prelude.Result.{Result, ok, err, map_err, unwrap_or, ◌>>=◌, ◌>>◌}
use legion_linux_toolkit_rus.Text.{◌<>◌}
use legion_linux_toolkit_rus.Hw.FirmwareAttrs.{AttrInfo}
use legion_linux_toolkit_rus.Hw.Detect
use legion_linux_toolkit_rus.Hw.Detect.{Capabilities}
use legion_linux_toolkit_rus.Daemon.Iface.{Call}
use legion_linux_toolkit_rus.Bus.{ZbusError, method_error, other, Json, Answers}

pub record Snapshot : Type 0 where
  pub profile : String
  pub profile_choices : List String
  pub battery_mode : String
  pub fn_lock : Bool
  pub camera : Bool
  pub usb_charging : Bool
  pub backlight : ℕ
  pub boost : Bool
  pub capabilities : Capabilities
  pub ppt : List AttrInfo
  pub daemon_version : String

pub data Request : Type 0 where
  set_profile set_battery_mode : String → Request
  set_ppt : String → ℕ → Request
  set_fn_lock set_camera_power set_usb_charging : Bool → Request
  set_kbd_backlight : ℕ → Request
  set_cpu_boost : Bool → Request
  refresh : Request

-- The method call that `apply` makes for a request.
unfoldable pub to_call : Request → Option Call
to_call Request.refresh = none
to_call (Request.set_profile v) = some (Call.set_profile v)
to_call (Request.set_battery_mode v) = some (Call.set_battery_mode v)
to_call (Request.set_ppt attr watts) = some (Call.set_ppt attr watts)
to_call (Request.set_fn_lock v) = some (Call.set_fn_lock v)
to_call (Request.set_camera_power v) = some (Call.set_camera_power v)
to_call (Request.set_usb_charging v) = some (Call.set_usb_charging v)
to_call (Request.set_kbd_backlight v) = some (Call.set_kbd_backlight v)
to_call (Request.set_cpu_boost v) = some (Call.set_cpu_boost v)

abbrev detail_or : String → Option String → String
detail_or name none = name
detail_or name (some d) = d

unfoldable pub describe : ZbusError → String
describe (method_error name detail) =
    if name == "org.legiontoolkit.Error.CustomModeRequired"
    then "Switch to Custom mode first"
    else if name == "org.legiontoolkit.Error.NotAuthorized"
    then "Not authorized — an active local session is required"
    else if name == "org.legiontoolkit.Error.NotSupported"
    then "Not supported on this machine"
    else detail_or name detail
describe (other text) = text

-- `Daemon::connect`, where `display` is the text of an error.
unfoldable pub connect : (ZbusError → String) → Answers → Result String (Unit {0})
connect display a = do
  map_err (λ e. "cannot reach the system bus: " <> display e) a.connection
  map_err display a.dbus
  owned (unwrap_or false a.name_has_owner)
  map_err display a.proxy
  where
    owned : Bool → Result String (Unit {0})
    owned true = ok tt
    owned false = err "org.legiontoolkit.Daemon is not owned by any process"

-- The properties and the methods of the daemon as its proxy answers them, in a world that a call
-- may change; `display` is the text of an error.
pub record Server : Type 1 where
  pub World : Type 0
  pub capabilities : World → Result ZbusError String
  pub get_ppt : World → Result ZbusError String
  pub profile : World → Result ZbusError String
  pub profile_choices : World → Result ZbusError (List String)
  pub battery_mode : World → Result ZbusError String
  pub fn_lock : World → Result ZbusError Bool
  pub camera_power : World → Result ZbusError Bool
  pub usb_charging : World → Result ZbusError Bool
  pub kbd_backlight : World → Result ZbusError ℕ
  pub cpu_boost : World → Result ZbusError Bool
  pub version : World → Result ZbusError String
  pub call_method : Call → World → Result ZbusError (Unit {0}) × World
  pub display : ZbusError → String

abbrev pub toast_of : Result ZbusError (Unit {0}) → Option String
toast_of (ok u) = none
toast_of (err e) = some (describe e)

abbrev pub or_default {ℓ} : {A : Type ℓ} → A → Option A → A
or_default d none = d
or_default d (some a) = a

module _ (S : Server) where
  open S use {World, call_method}

  abbrev applied : Option Call → World → Option String × World
  applied none w = (none, w)
  applied (some c) w = let (r, after) = call_method c w in (toast_of r, after)

  -- `Daemon::apply`: the toast to show, and the world that the call leaves. It always returns `Ok`.
  unfoldable pub apply : Request → World → Option String × World
  unfolding to_call describe
  apply req w = applied (to_call req) w

  module _ (J : Json) where
    -- `Daemon::snapshot`
    unfoldable pub snapshot : World → Result String Snapshot
    snapshot w = do
      caps_json ← map_err S.display (S.capabilities w)
      let capabilities = or_default Detect.default (J.capabilities_from_json caps_json)
      ppt_json ← map_err S.display (S.get_ppt w)
      let ppt = or_default [] (J.attrs_from_str ppt_json)
      ok (record {
        profile = unwrap_or "" (S.profile w);
        profile_choices = unwrap_or [] (S.profile_choices w);
        battery_mode = unwrap_or "" (S.battery_mode w);
        fn_lock = unwrap_or false (S.fn_lock w);
        camera = unwrap_or false (S.camera_power w);
        usb_charging = unwrap_or false (S.usb_charging w);
        backlight = unwrap_or 0 (S.kbd_backlight w);
        boost = unwrap_or false (S.cpu_boost w);
        capabilities = capabilities;
        ppt = ppt;
        daemon_version = unwrap_or "" (S.version w);
      })
