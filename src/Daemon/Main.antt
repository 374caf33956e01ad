-- ===== src/Daemon/Main.antt =====
-- crates/legion-daemon/src/main.rs: the start of the daemon and its loop. The loop runs on a list
-- of events: what the arms of `select!` yield, and the calls that the object server serves between
-- two turns of the loop.
pub mod Firmware
pub mod Restart
pub mod Resume
pub mod History
pub mod Remembers
pub mod Denied
use legion_linux_toolkit_rus.Prelude.{
  String, Bool, true, false, not, filter_map, Option, none, some, List, [], ◌∷◌, if◌then◌else◌,
}
use legion_linux_toolkit_rus.Prelude.Result.{Result, ok, err, map_ok, to_option}
use legion_linux_toolkit_rus.Hw.Sysfs.{Sysfs}
use legion_linux_toolkit_rus.Hw.Error.{IoError}
use legion_linux_toolkit_rus.Hw.ProfileWatch.{Reread}
use legion_linux_toolkit_rus.Daemon.Auth.{Polkit, Authorizer}
use legion_linux_toolkit_rus.Daemon.State
use legion_linux_toolkit_rus.Daemon.State.{State, StatePath, Disk}
use legion_linux_toolkit_rus.Daemon.Iface.{Outside, Daemon, Call, Signal}
use legion_linux_toolkit_rus.Daemon.Methods.{handle, notify_profile_changed}
use legion_linux_toolkit_rus.Daemon.Reapply.{reapply_state}
use legion_linux_toolkit_rus.Daemon.Watch.{
  ProfileWatcher, Wake, Wait, changed, waiting, stuck, next_change,
}

-- `BusKind`
pub data BusKind : Type 0 where
  system session : BusKind

-- The daemon, the watcher that `main` keeps beside it, and whether the arm of the watcher is
-- pending for ever since its descriptor failed, until `select!` is entered again.
pub record App : Type 0 where
  pub daemon : Daemon
  pub watcher : Option ProfileWatcher
  pub parked : Bool

-- `sleep_watch`: whether logind can be reached and subscribed to, and what the stream then yields;
-- a signal whose arguments cannot be read is skipped. Without logind the arm never resolves.
unfoldable pub sleep_watch :
    Result String (Unit {0})
    → Result String (Unit {0})
    → List (Result String Bool)
    → Option (List Bool)
sleep_watch (err e) stream signals = none
sleep_watch (ok u) (err e) signals = none
sleep_watch (ok u) (ok v) signals =
    some (filter_map (λ args. to_option (map_ok (λ start. not start) args)) signals)

module _ (W : Outside) where
  -- `Daemon::new` on the state that `State::load` finds, and the first `reapply_state`.
  unfoldable pub start : Sysfs → Disk → StatePath → Authorizer → Daemon
  unfolding State.load reapply_state
  start root disk path authorizer = reapply_state W.kernel (record {
    root = root;
    disk = disk;
    signals = [];
    state = State.load W.storage path disk;
    state_path = path;
    authorizer = authorizer;
  })

  -- The choice of the authorizer: on the system bus the connection to the bus and to polkit may
  -- fail, which ends the program.
  abbrev pub authorizer_on :
      BusKind → Result String (Unit {0}) → Result String (Unit {0}) → Result String Authorizer
  authorizer_on session connection polkit = ok Authorizer.allow_all
  authorizer_on system (err e) polkit = err e
  authorizer_on system (ok u) (err e) = err e
  authorizer_on system (ok u) (ok v) = ok Authorizer.polkit

  -- `main` up to the daemon, which has reapplied the persisted settings.
  unfoldable pub launch :
      BusKind
      → Result String (Unit {0})
      → Result String (Unit {0})
      → Sysfs
      → Disk
      → StatePath
      → Result String Daemon
  unfolding start
  launch kind connection polkit root disk path =
      map_ok (start root disk path) (authorizer_on kind connection polkit)

  -- What happens next: the firmware or another process leaves other files, the watched file wakes
  -- the daemon, logind sends `PrepareForSleep` with its `start`, a client calls a method, or the
  -- daemon is interrupted.
  pub data Event : Type 0 where
    firmware : Sysfs → Event
    wake : Wake → Event
    prepare_for_sleep : Bool → Event
    call : Call → W.bus.Header → Event
    ctrl_c : Event

  -- The signal that the loop sends; an error of the bus is logged only.
  abbrev pub notify : Daemon → Daemon
  notify d = (notify_profile_changed W d).1

  abbrev pub on_wait : App → Wait → App
  on_wait a (changed p w rest) = record a { daemon = notify a.daemon; watcher = some w }
  on_wait a (waiting w) = record a { watcher = some w }
  on_wait a (stuck w) = record a { watcher = some w; parked = true }

  abbrev pub on_wake : App → Wake → Option ProfileWatcher → App
  on_wake a v none = a
  on_wake a v (some w) = if a.parked then a else on_wait a (next_change w (v ∷ []))

  -- `sleep_watch` sends `!args.start`.
  abbrev pub on_sleep : Bool → Daemon → Daemon
  on_sleep resuming d = if resuming then notify (reapply_state W.kernel d) else d

  abbrev pub step : App → Event → App
  step a (firmware root) = record a { daemon = record a.daemon { root = root } }
  step a (wake v) = on_wake a v a.watcher
  step a (prepare_for_sleep start) = record a {
    daemon = on_sleep (not start) a.daemon;
    parked = false;
  }
  step a (call c hdr) = record a { daemon = (handle W c hdr a.daemon).1 }
  step a ctrl_c = a

  -- The loop of `main`, over the events to come.
  unfoldable pub run : App → List Event → App
  unfolding notify_profile_changed reapply_state next_change handle
  run a [] = a
  run a (ctrl_c ∷ rest) = a
  run a (e ∷ rest) = run (step a e) rest
