-- ===== src/Ctl/Backend/Connects.antt =====
-- The two clients look for the daemon in the same way.
use legion_linux_toolkit_rus.Prelude.{String, ◌≡◌, ◌↔◌, arith}
use legion_linux_toolkit_rus.Prelude.Result.{ok}
use legion_linux_toolkit_rus.Bus.{ZbusError, Answers}
use legion_linux_toolkit_rus.Ctl.Backend
use legion_linux_toolkit_rus.Ctl.Backend.{try_daemon, daemon}
use legion_linux_toolkit_rus.Gui.Snapshot

-- With the same answers of the bus, the command line goes through the daemon exactly if the window
-- connects to it.
pub connect-connects :
    (display : ZbusError → String) (a : Answers)
    → ((Backend.connect a).0 ≡ daemon) ↔ (Snapshot.connect display a ≡ ok tt)
unfolding Backend.connect try_daemon Snapshot.connect
connect-connects display a = (λ h. ground arith, λ h. ground arith)
