-- ===== src/Ctl/Commands.antt =====
-- crates/legion-ctl/src/commands.rs: the commands. A command returns the lines it prints, or the
-- message it fails with, and what it leaves.
pub mod Agreement
pub mod Limits
use legion_linux_toolkit_rus.Prelude.{
  ℕ, String, Bool, true, false, not, ◌||◌, Option, none, some, List, [], ◌∷◌, ◌++◌, ◌==◌,
  if◌then◌else◌, ltb, find, is_empty, map, any,
}
use legion_linux_toolkit_rus.Prelude.Result.{
  Result, ok, err, map_ok, map_err, ok_or, unwrap_or, ◌>>=◌,
}
use legion_linux_toolkit_rus.Text.{trim, to_ascii_lowercase}
use legion_linux_toolkit_rus.Text.Decimal.{show}
use legion_linux_toolkit_rus.Hw.Error.{HwResult, Message, plain, quoted}
use legion_linux_toolkit_rus.Hw.Sysfs.{Sysfs, Kernel, Action}
use legion_linux_toolkit_rus.Hw.Profile
use legion_linux_toolkit_rus.Hw.Profile.{PowerProfile}
use legion_linux_toolkit_rus.Hw.Battery
use legion_linux_toolkit_rus.Hw.Battery.{ChargeMode}
use legion_linux_toolkit_rus.Hw.FirmwareAttrs
use legion_linux_toolkit_rus.Hw.FirmwareAttrs.{AttrInfo, in_range}
use legion_linux_toolkit_rus.Hw.Ideapad
use legion_linux_toolkit_rus.Hw.Ideapad.{Toggle}
use legion_linux_toolkit_rus.Hw.KbdBacklight
use legion_linux_toolkit_rus.Hw.Cpu
use legion_linux_toolkit_rus.Daemon.Iface.{Signal, Call}
use legion_linux_toolkit_rus.Daemon.Methods.{named_or}
use legion_linux_toolkit_rus.Ctl.Backend.{
  Proxy, Backend, fetch, change, describe_error, describe_hw_error,
}

abbrev one_of : List String → String → Bool
one_of words s = any (λ w. w == s) words

unfoldable pub parse_on_off : String → Result Message Bool
unfolding trim to_ascii_lowercase
parse_on_off s =
    let t = to_ascii_lowercase (trim s) in
    if one_of ("on" ∷ "true" ∷ "1" ∷ "yes" ∷ "enable" ∷ "enabled" ∷ []) t
    then ok true
    else if one_of ("off" ∷ "false" ∷ "0" ∷ "no" ∷ "disable" ∷ "disabled" ∷ []) t
    then ok false
    else err (plain "expected 'on' or 'off', got " ∷ quoted t ∷ [])

abbrev pub show_on_off : Bool → String
show_on_off v = if v then "on" else "off"

pub data ToggleKind : Type 0 where
  fn_lock camera usb_charging boost : ToggleKind

unfoldable pub cli_name : ToggleKind → String
cli_name fn_lock = "fnlock"
cli_name camera = "camera"
cli_name usb_charging = "usb-charging"
cli_name boost = "boost"

unfoldable pub dbus_property : ToggleKind → Signal
dbus_property fn_lock = Signal.fn_lock
dbus_property camera = Signal.camera_power
dbus_property usb_charging = Signal.usb_charging
dbus_property boost = Signal.cpu_boost

-- `dbus_method`, with its argument.
unfoldable pub dbus_method : ToggleKind → Bool → Call
dbus_method fn_lock = Call.set_fn_lock
dbus_method camera = Call.set_camera_power
dbus_method usb_charging = Call.set_usb_charging
dbus_method boost = Call.set_cpu_boost

unfoldable pub hw_toggle : ToggleKind → Option Toggle
hw_toggle fn_lock = some Toggle.fn_lock
hw_toggle camera = some Toggle.camera_power
hw_toggle usb_charging = some Toggle.usb_charging
hw_toggle boost = none

abbrev pub get_direct : Sysfs → Option Toggle → Option Bool
get_direct root (some t) = Ideapad.get root t
get_direct root none = Cpu.get_boost root

abbrev pub set_direct : Kernel → Option Toggle → Bool → Action
set_direct K (some t) on = Ideapad.set K t on
set_direct K none on = Cpu.set_boost K on

abbrev pub label_or_unknown : HwResult String → String
label_or_unknown (ok l) = l
label_or_unknown (err e) = "unknown"

abbrev pub described : String → String → String → Message
described what token label =
    plain what ∷ plain ": " ∷ plain token ∷ plain " (" ∷ plain label ∷ plain ")" ∷ []

abbrev attr_line : AttrInfo → Message
attr_line a =
    plain a.key
    ∷ plain ": "
    ∷ plain (show a.current)
    ∷ plain " W (default "
    ∷ plain (show a.default)
    ∷ plain ", range "
    ∷ plain (show a.min)
    ∷ plain "–"
    ∷ plain (show a.max)
    ∷ plain ")"
    ∷ []

abbrev join_keys : List AttrInfo → Message
join_keys [] = []
join_keys (a ∷ []) = plain a.key ∷ []
join_keys (a ∷ b ∷ rest) = plain a.key ∷ plain ", " ∷ join_keys (b ∷ rest)

abbrev pub Printed : Type 0
Printed = Result Message (List Message)

module _ (P : Proxy) where
  open P use {World, files, get_ppt, json, json_error}

  -- The list that the daemon's text holds, or the listing of the files.
  unfoldable pub read_ppt : Backend → World → Result Message (List AttrInfo)
  unfolding describe_error
  read_ppt Backend.daemon w = do
    text ← map_err describe_error (get_ppt w)
    ok_or (json_error text) (json.attrs_from_str text)
  read_ppt Backend.direct w = ok (FirmwareAttrs.list_all (files w))

module _ (P : Proxy) (K : Kernel) where
  open P use {World, files, get_string, get_bool, get_u32}

  -- A line, once a change has succeeded.
  abbrev pub then_print : Message → Result Message (Unit {0}) × World → Printed × World
  then_print line (ok u, w) = (ok (line ∷ []), w)
  then_print line (err e, w) = (err e, w)

  abbrev print_read : {A : Type 0} → (A → Message) → Result Message A → World → Printed × World
  print_read line r w = (map_ok (λ a. line a ∷ []) r, w)

  abbrev pub set_parsed_profile : Backend → HwResult PowerProfile → World → Printed × World
  set_parsed_profile b (err e) w = (err (describe_hw_error e), w)
  set_parsed_profile b (ok p) w =
      then_print (described "profile" (Profile.as_sysfs p) (Profile.label p))
        (change P b (Call.set_profile (Profile.as_sysfs p)) (Profile.set K p) w)

  unfoldable pub profile : Backend → Option String → World → Printed × World
  unfolding change describe_hw_error
  profile b none w =
      print_read
        (λ c.
          described "profile" c (label_or_unknown (map_ok Profile.label (Profile.from_sysfs c))))
        (fetch P b (get_string Signal.profile w)
          (map_err describe_hw_error (map_ok Profile.as_sysfs (Profile.get (files w)))))
        w
  profile b (some v) w = set_parsed_profile b (Profile.from_user v) w

  abbrev pub set_parsed_mode : Backend → HwResult ChargeMode → World → Printed × World
  set_parsed_mode b (err e) w = (err (describe_hw_error e), w)
  set_parsed_mode b (ok m) w =
      then_print (described "battery" (Battery.as_sysfs m) (Battery.label m))
        (change P b (Call.set_battery_mode (Battery.as_sysfs m)) (Battery.set_mode K m) w)

  unfoldable pub battery : Backend → Option String → World → Printed × World
  unfolding change describe_hw_error
  battery b none w =
      print_read
        (λ c.
          described "battery" c (label_or_unknown (map_ok Battery.label (Battery.from_sysfs c))))
        (fetch P b (get_string Signal.battery_mode w)
          (map_err describe_hw_error (map_ok Battery.as_sysfs (Battery.get_mode (files w)))))
        w
  battery b (some v) w = set_parsed_mode b (Battery.from_user v) w

  abbrev toggle_line : ToggleKind → Bool → Message
  toggle_line kind on = plain (cli_name kind) ∷ plain ": " ∷ plain (show_on_off on) ∷ []

  abbrev pub set_parsed_toggle :
      Backend → ToggleKind → Result Message Bool → World → Printed × World
  set_parsed_toggle b kind (err e) w = (err e, w)
  set_parsed_toggle b kind (ok on) w =
      then_print (toggle_line kind on)
        (change P b (dbus_method kind on) (set_direct K (hw_toggle kind) on) w)

  unfoldable pub toggle : Backend → ToggleKind → Option String → World → Printed × World
  unfolding change parse_on_off cli_name dbus_property dbus_method hw_toggle
  toggle b kind none w =
      print_read (toggle_line kind)
        (fetch P b (get_bool (dbus_property kind) w) (
          ok_or (plain "not supported on this machine" ∷ [])
            (get_direct (files w) (hw_toggle kind))))
        w
  toggle b kind (some v) w = set_parsed_toggle b kind (parse_on_off v) w

  abbrev pub set_level : Backend → ℕ → ℕ → World → Printed × World
  set_level b max level w =
      if ltb max level
      then (
        err (
            plain "backlight level "
            ∷ plain (show level)
            ∷ plain " is out of range: 0–"
            ∷ plain (show max)
            ∷ []),
        w,
      )
      else then_print (plain "backlight: " ∷ plain (show level) ∷ [])
          (change P b (Call.set_kbd_backlight level) (KbdBacklight.set K level) w)

  unfoldable pub backlight : Backend → Option ℕ → World → Printed × World
  unfolding change describe_hw_error
  backlight b none w =
      print_read
        (λ c.
          plain "backlight: "
          ∷ plain (show c)
          ∷ plain " (max "
          ∷ plain (show (unwrap_or 2 (KbdBacklight.max (files w))))
          ∷ plain ")"
          ∷ [])
        (fetch P b (get_u32 Signal.kbd_backlight w)
          (map_err describe_hw_error (KbdBacklight.get (files w))))
        w
  backlight b (some level) w = set_level b (unwrap_or 2 (KbdBacklight.max (files w))) level w

  abbrev pub ppt_value : Backend → Option ℕ → AttrInfo → World → Printed × World
  ppt_value b none info w = (ok (attr_line info ∷ []), w)
  ppt_value b (some watts) info w =
      if not (in_range info watts)
      then (
        err (
            plain (show watts)
            ∷ plain " W is out of range for "
            ∷ plain info.key
            ∷ plain ": "
            ∷ plain (show info.min)
            ∷ plain "–"
            ∷ plain (show info.max)
            ∷ plain " W"
            ∷ []),
        w,
      )
      else then_print (plain info.key ∷ plain ": " ∷ plain (show watts) ∷ plain " W" ∷ []) (
          change P b (Call.set_ppt info.key watts)
            (FirmwareAttrs.write_by_name K
              (named_or FirmwareAttrs.dir_name info.key (FirmwareAttrs.from_key info.key)) watts)
            w)

  -- The entry of a key, or the keys that there are.
  abbrev pub entry_of : String → List AttrInfo → Option AttrInfo
  entry_of attr all =
      find
        (λ (a : AttrInfo). a.key == named_or FirmwareAttrs.key attr (FirmwareAttrs.from_key attr))
        all

  abbrev pub ppt_found :
      Backend → String → Option ℕ → List AttrInfo → Option AttrInfo → World → Printed × World
  ppt_found b attr watts all none w = (
    err (
        plain "unknown power limit "
        ∷ quoted attr
        ∷ plain " (known: "
        ∷ (join_keys all ++ plain ")" ∷ [])),
    w,
  )
  ppt_found b attr watts all (some info) w = ppt_value b watts info w

  abbrev pub ppt_named :
      Backend → Option String → Option ℕ → List AttrInfo → World → Printed × World
  ppt_named b none watts all w = (ok (map attr_line all), w)
  ppt_named b (some attr) watts all w = ppt_found b attr watts all (entry_of attr all) w

  abbrev pub ppt_of :
      Backend → Option String → Option ℕ → Result Message (List AttrInfo) → World → Printed × World
  ppt_of b attr watts (err e) w = (err e, w)
  ppt_of b attr watts (ok all) w =
      if is_empty all
      then (err (plain "no power-limit attributes on this machine" ∷ []), w)
      else ppt_named b attr watts all w

  unfoldable pub ppt : Backend → Option String → Option ℕ → World → Printed × World
  unfolding read_ppt change in_range
  ppt b attr watts w = ppt_of b attr watts (read_ppt P b w) w
