-- ===== src/Bus.antt =====
-- What the clients of the daemon see of the bus, and the texts of the values that cross it.
use legion_linux_toolkit_rus.Prelude.{String, Bool, Option, some, List, ◌≡◌}
use legion_linux_toolkit_rus.Prelude.Result.{Result, ok}
use legion_linux_toolkit_rus.Hw.Detect.{Capabilities}
use legion_linux_toolkit_rus.Hw.FirmwareAttrs.{AttrInfo}

-- `zbus::Error`: an error that the method returned, with its name and its detail, or another one,
-- with its text.
pub data ZbusError : Type 0 where
  method_error : String → Option String → ZbusError
  other : String → ZbusError

-- serde's texts of the capabilities and of the firmware attributes.
pub record Json : Type 0 where
  pub capabilities_to_json : Capabilities → Result String String
  pub capabilities_from_json : String → Option Capabilities
  pub attrs_to_string : List AttrInfo → Result String String
  pub attrs_from_str : String → Option (List AttrInfo)

-- The derived codecs write every value, and read what they wrote.
pub record IsJson (J : Json) : Type 0 where
  pub capabilities_text :
      (c : Capabilities)
      → (t : String) × (J.capabilities_to_json c ≡ ok t) × (J.capabilities_from_json t ≡ some c)
  pub attrs_text :
      (l : List AttrInfo)
      → (t : String) × (J.attrs_to_string l ≡ ok t) × (J.attrs_from_str t ≡ some l)

-- What the bus answers a client that looks for the daemon: the connection, the proxy of the bus,
-- whether the name is owned, and the proxy of the daemon.
pub record Answers : Type 0 where
  pub connection : Result ZbusError (Unit {0})
  pub dbus : Result ZbusError (Unit {0})
  pub name_has_owner : Result ZbusError Bool
  pub proxy : Result ZbusError (Unit {0})
