-- ===== src/Hw/Error.antt =====
-- crates/legion-hw/src/error.rs: the failure modes, and how an `io::Error` is classified.
use legion_linux_toolkit_rus.Prelude.{String, Option, none, some, List, [], ◌∷◌}
use legion_linux_toolkit_rus.Prelude.Result.{Result}

-- A piece of a `format!` message: a text as it is, or one under `{:?}`, whose escaping is the
-- standard library's and stays unexpanded.
pub data Part : Type 0 where
  plain : String → Part
  quoted : String → Part

abbrev pub Message : Type 0
Message = List Part

-- `io::ErrorKind`, as far as the source tells kinds apart.
pub data ErrorKind : Type 0 where
  not_found permission_denied other : ErrorKind

-- The error numbers that the source names.
pub data Errno : Type 0 where
  busy nodev opnotsupp unnamed : Errno

-- `io::Error`: `kind()`, `raw_os_error()` and its message.
pub record IoError : Type 0 where
  pub kind : ErrorKind
  pub raw_os_error : Option Errno
  pub message : String

pub data HwError : Type 0 where
  not_supported permission_denied busy : HwError
  io : IoError → HwError
  parse : Message → HwError

abbrev pub HwResult : Type 0 → Type 0
HwResult A = Result HwError A

-- The arms that test the raw error number.
from_errno : Option Errno → IoError → HwError
from_errno (some Errno.busy) e = HwError.busy
from_errno (some Errno.nodev) e = HwError.not_supported
from_errno (some Errno.opnotsupp) e = HwError.not_supported
from_errno (some Errno.unnamed) e = HwError.io e
from_errno none e = HwError.io e

from_kind : ErrorKind → IoError → HwError
unfolding from_errno
from_kind ErrorKind.not_found e = HwError.not_supported
from_kind ErrorKind.permission_denied e = HwError.permission_denied
from_kind ErrorKind.other e = from_errno e.raw_os_error e

unfoldable pub from_io : IoError → HwError
unfolding from_kind
from_io e = from_kind e.kind e

unfoldable pub kind_str : HwError → String
kind_str HwError.not_supported = "not-supported"
kind_str HwError.permission_denied = "permission-denied"
kind_str HwError.busy = "custom-mode-required"
kind_str (HwError.io e) = "io"
kind_str (HwError.parse m) = "parse"

-- `Display`, which `thiserror` derives from the `#[error("…")]` attributes.
unfoldable pub to_string : HwError → Message
to_string HwError.not_supported = plain "not supported on this machine" ∷ []
to_string HwError.permission_denied =
    plain "permission denied (only the daemon, running as root, may write here)" ∷ []
to_string HwError.busy = plain "device busy: switch the power profile to Custom first" ∷ []
to_string (HwError.io e) = plain "i/o error: " ∷ plain e.message ∷ []
to_string (HwError.parse m) = plain "could not parse sysfs value: " ∷ m
