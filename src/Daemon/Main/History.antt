-- ===== src/Daemon/Main/History.antt =====
-- The state of the daemon against the answers that its callers got.
use legion_linux_toolkit_rus.Prelude.{
  Bool, true, some, List, [], ◌∷◌, ◌≡◌, refl, ap, ◌∙◌, arith, if◌then◌else◌,
}
use legion_linux_toolkit_rus.Prelude.Result.{ok, err}
use legion_linux_toolkit_rus.Hw.Error.{HwResult}
use legion_linux_toolkit_rus.Hw.Profile
use legion_linux_toolkit_rus.Hw.Profile.{PowerProfile}
use legion_linux_toolkit_rus.Hw.Battery
use legion_linux_toolkit_rus.Hw.Battery.{ChargeMode}
use legion_linux_toolkit_rus.Hw.FirmwareAttrs
use legion_linux_toolkit_rus.Daemon.Error.{DaemonResult, from_hw}
use legion_linux_toolkit_rus.Daemon.Auth.{check}
use legion_linux_toolkit_rus.Daemon.State
use legion_linux_toolkit_rus.Daemon.State.{State}
use legion_linux_toolkit_rus.Daemon.Iface.{Outside, Daemon, Call}
use legion_linux_toolkit_rus.Daemon.Methods.{authorize, handle, emit, persist, named_or}
use legion_linux_toolkit_rus.Daemon.Methods.Failure.{is_bus_error}
use legion_linux_toolkit_rus.Daemon.Main.Firmware.{wake-IsKept, sleep-IsKept}
use legion_linux_toolkit_rus.Daemon.Main.{
  App, Event, firmware, wake, prepare_for_sleep, call, ctrl_c, step, run,
}

abbrev with_profile : HwResult PowerProfile → State → State
with_profile (ok p) s = record s { profile = some (Profile.as_sysfs p) }
with_profile (err e) s = s

abbrev with_mode : HwResult ChargeMode → State → State
with_mode (ok m) s = record s { battery_mode = some (Battery.as_sysfs m) }
with_mode (err e) s = s

-- The settings as a caller thinks of them: what a call that was taken adds to them.
abbrev pub records : Call → State → State
records (Call.set_profile v) s = with_profile (Profile.from_user v) s
records (Call.set_battery_mode v) s = with_mode (Battery.from_user v) s
records (Call.set_ppt a w) s =
    State.set_ppt (named_or FirmwareAttrs.key a (FirmwareAttrs.from_key a)) w s
records _ s = s

-- The caller was told that the call succeeded, or that only the announcement of it failed.
abbrev pub was_taken : DaemonResult (Unit {0}) → Bool
was_taken (ok u) = true
was_taken (err e) = is_bus_error e

abbrev pub Reply : Type 0
Reply = Call × DaemonResult (Unit {0})

-- The settings after the calls, by what the callers were told.
unfoldable pub recorded_by : List Reply → State → State
recorded_by [] s = s
recorded_by ((c, r) ∷ rest) s = recorded_by rest (if was_taken r then records c s else s)

module _ (W : Outside) where
  -- The calls of a run of the loop with their answers, in order.
  unfoldable pub replies : App → List (Event W) → List Reply
  unfolding run
  replies a [] = []
  replies a (ctrl_c ∷ rest) = []
  replies a (call c hdr ∷ rest) =
      (c, (handle W c hdr a.daemon).0) ∷ replies (step W a (call c hdr)) rest
  replies a (e ∷ rest) = replies (step W a e) rest

  handle-records :
      (c : Call) (hdr : W.bus.Header) (d : Daemon)
      → (handle W c hdr d).1.state
        ≡ (if was_taken (handle W c hdr d).0 then records c d.state else d.state)
  unfolding handle authorize emit persist from_hw check
  handle-records (Call.set_profile v) hdr d = ground arith
  handle-records (Call.set_battery_mode v) hdr d = ground arith
  handle-records _ hdr d = ground arith

  -- The state of the daemon is what its callers were told: whatever calls, wakes, suspends and
  -- changes of the files come in whatever order, it is the state at the start with the calls
  -- recorded, in order, that were answered with a success, or with an error of the bus. All other
  -- answers, and all that is no call, leave it as it is.
  pub run-recorded :
      (es : List (Event W)) (a : App)
      → (run W a es).daemon.state ≡ recorded_by (replies a es) a.daemon.state
  unfolding run recorded_by replies
  run-recorded [] a = refl
  run-recorded (ctrl_c ∷ rest) a = refl
  run-recorded (firmware root ∷ rest) a = run-recorded rest (step W a (firmware root))
  run-recorded (wake v ∷ rest) a =
      run-recorded rest (step W a (wake v))
      ∙ ap (recorded_by (replies (step W a (wake v)) rest)) (wake-IsKept W a v).state
  run-recorded (prepare_for_sleep s ∷ rest) a =
      run-recorded rest (step W a (prepare_for_sleep s))
      ∙ ap (recorded_by (replies (step W a (prepare_for_sleep s)) rest)) (sleep-IsKept W a s).state
  run-recorded (call c hdr ∷ rest) a =
      run-recorded rest (step W a (call c hdr))
      ∙ ap (recorded_by (replies (step W a (call c hdr)) rest)) (handle-records c hdr a.daemon)
