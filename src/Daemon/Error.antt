-- ===== src/Daemon/Error.antt =====
-- crates/legion-daemon/src/error.rs: the errors that the daemon returns over D-Bus.
use legion_linux_toolkit_rus.Prelude.{String, [], ◌∷◌}
use legion_linux_toolkit_rus.Prelude.Result.{Result}
use legion_linux_toolkit_rus.Hw.Error.{HwError, Message, plain, to_string}

pub data DaemonError : Type 0 where
  zbus : String → DaemonError
  custom_mode_required not_supported not_authorized permission_denied : Message → DaemonError
  invalid_argument failed : Message → DaemonError

abbrev pub DaemonResult : Type 0 → Type 0
DaemonResult A = Result DaemonError A

unfoldable pub from_hw : HwError → DaemonError
unfolding to_string
from_hw HwError.busy =
    DaemonError.custom_mode_required
      (plain "power limits can only be changed while the Custom profile is active" ∷ [])
from_hw HwError.not_supported = DaemonError.not_supported (to_string HwError.not_supported)
from_hw HwError.permission_denied =
    DaemonError.permission_denied (to_string HwError.permission_denied)
from_hw (HwError.parse m) = DaemonError.invalid_argument (to_string (HwError.parse m))
from_hw (HwError.io e) = DaemonError.failed (to_string (HwError.io e))
