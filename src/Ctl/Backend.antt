-- ===== src/Ctl/Backend.antt =====
-- crates/legion-ctl/src/backend.rs: how an invocation talks to the hardware, and the messages of
-- failures.
pub mod Connects
use legion_linux_toolkit_rus.Prelude.{
  ℕ, String, Bool, true, false, ◌&&◌, Option, none, some, List, [], ◌∷◌, ◌==◌, if◌then◌else◌,
}
use legion_linux_toolkit_rus.Prelude.Result.{Result, ok, err, map_err, unwrap_or}
use legion_linux_toolkit_rus.Text.{◌<>◌}
use legion_linux_toolkit_rus.Bus.{ZbusError, method_error, other, Answers, Json}
use legion_linux_toolkit_rus.Hw.Error.{HwError, Message, plain, to_string}
use legion_linux_toolkit_rus.Hw.Sysfs.{Sysfs, Action}
use legion_linux_toolkit_rus.Hw.FirmwareAttrs.{AttrInfo}
use legion_linux_toolkit_rus.Daemon.Iface.{Signal, Call}

-- The proxy of the daemon, and the files that both ways work on: what a property reads, what a
-- call answers and leaves, and the text of `GetPpt`; serde's codec, and its error on a text that it
-- cannot parse.
pub record Proxy : Type 1 where
  pub World : Type 0
  pub files : World → Sysfs
  pub set_files : Sysfs → World → World
  pub get_string : Signal → World → Result ZbusError String
  pub get_bool : Signal → World → Result ZbusError Bool
  pub get_u32 : Signal → World → Result ZbusError ℕ
  pub get_ppt : World → Result ZbusError String
  pub json : Json
  pub json_error : String → Message
  pub call_method : Call → World → Result ZbusError (Unit {0}) × World

-- `Backend`: whether the name of the daemon is owned.
pub data Backend : Type 0 where
  daemon direct : Backend

-- Whether `try_daemon` returns a proxy: every step succeeds and the name is owned.
unfoldable pub try_daemon : Answers → Bool
try_daemon a =
    is_ok a.connection && is_ok a.dbus && unwrap_or false a.name_has_owner && is_ok a.proxy
  where
    is_ok : Result ZbusError (Unit {0}) → Bool
    is_ok (ok u) = true
    is_ok (err e) = false

abbrev pub fallback_hint : String
fallback_hint = "legiond not running — using direct sysfs (systemctl enable --now legiond)"

-- `Backend::connect`, with the lines it prints to the standard error.
unfoldable pub connect : Answers → Backend × List String
unfolding try_daemon
connect a = if try_daemon a then (daemon, []) else (direct, fallback_hint ∷ [])

abbrev or_empty : Option String → String
or_empty none = ""
or_empty (some d) = d

abbrev named : String → String → String
named name detail =
    if name == "org.legiontoolkit.Error.CustomModeRequired"
    then "switch to the Custom profile first: legion-ctl profile custom"
    else if name == "org.legiontoolkit.Error.NotAuthorized"
    then "not authorized: " <> detail
    else if name == "org.legiontoolkit.Error.NotSupported"
    then "not supported on this machine: " <> detail
    else if detail == ""
    then name
    else detail

unfoldable pub describe_error : ZbusError → Message
describe_error (method_error name detail) = plain (named name (or_empty detail)) ∷ []
describe_error (other text) = plain text ∷ []

unfoldable pub describe_hw_error : HwError → Message
unfolding to_string
describe_hw_error HwError.permission_denied =
    plain "permission denied — start the daemon (systemctl enable --now legiond) or run as root"
    ∷ []
describe_hw_error HwError.busy =
    plain "switch to the Custom profile first: legion-ctl profile custom" ∷ []
describe_hw_error HwError.not_supported = plain "not supported on this machine" ∷ []
describe_hw_error (HwError.io e) = to_string (HwError.io e)
describe_hw_error (HwError.parse m) = to_string (HwError.parse m)

module _ (P : Proxy) where
  open P use {World, files, set_files, call_method}

  -- `match backend.proxy()` around a read.
  abbrev pub fetch :
      {A : Type 0} → Backend → Result ZbusError A → Result Message A → Result Message A
  fetch daemon remote local = map_err describe_error remote
  fetch direct remote local = local

  -- `match backend.proxy()` around a change: the call of a method, or the write.
  unfoldable pub change : Backend → Call → Action → World → Result Message (Unit {0}) × World
  unfolding describe_error describe_hw_error
  change daemon c a w = let (r, after) = call_method c w in (map_err describe_error r, after)
  change direct c a w =
      let (r, root) = a (files w) in (map_err describe_hw_error r, set_files root w)
