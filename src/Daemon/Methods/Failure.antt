-- ===== src/Daemon/Methods/Failure.antt =====
-- What a method that fails leaves behind.
use legion_linux_toolkit_rus.Prelude.{◌≡◌, Bool, true, false, arith}
use legion_linux_toolkit_rus.Prelude.Result.{err}
use legion_linux_toolkit_rus.Daemon.Error.{DaemonError}
use legion_linux_toolkit_rus.Daemon.Iface.{Outside, Daemon, Call}
use legion_linux_toolkit_rus.Daemon.Methods.{authorize, handle, emit, persist}

-- The daemon recorded nothing and announced nothing.
pub record IsSilent (d d' : Daemon) : Type 0 where
  pub state : d'.state ≡ d.state
  pub disk : d'.disk ≡ d.disk
  pub signals : d'.signals ≡ d.signals

-- The error came from the bus.
abbrev pub is_bus_error : DaemonError → Bool
is_bus_error (DaemonError.zbus m) = true
is_bus_error _ = false

module _ (W : Outside) (hdr : W.bus.Header) (d : Daemon) where
  -- A method that fails, other than by the bus when it announces the change, leaves the state, the
  -- state file and the signals as they were.
  pub handle_failure :
      (c : Call) (e : DaemonError)
      → (handle W c hdr d).0 ≡ err e
      → is_bus_error e ≡ false
      → IsSilent d (handle W c hdr d).1
  unfolding handle authorize emit persist
  handle_failure (Call.set_profile v) e h ne = ground arith
  handle_failure _ e h ne = ground arith
