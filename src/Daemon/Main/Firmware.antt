-- ===== src/Daemon/Main/Firmware.antt =====
-- What the daemon does of its own accord, and for callers whom polkit refuses.
use legion_linux_toolkit_rus.Prelude.{
  String, Bool, true, false, not, Option, none, some, [], ◌∷◌, ◌++◌, ◌≡◌, refl, if◌then◌else◌,
}
use legion_linux_toolkit_rus.Prelude.Result.{Result, ok, err}
use legion_linux_toolkit_rus.Hw.Sysfs.{Sysfs, Kernel}
use legion_linux_toolkit_rus.Daemon.Error.{DaemonError}
use legion_linux_toolkit_rus.Daemon.Auth.{check}
use legion_linux_toolkit_rus.Daemon.Iface.{Outside, Daemon, Signal}
use legion_linux_toolkit_rus.Daemon.Methods.{notify_profile_changed, emit, sent}
use legion_linux_toolkit_rus.Daemon.Reapply.{reapply_state}
use legion_linux_toolkit_rus.Daemon.Watch.{
  ProfileWatcher, Wake, Wait, changed, waiting, stuck, next_change,
}
use legion_linux_toolkit_rus.Daemon.Main.{
  App, wake, prepare_for_sleep, notify, on_wait, on_wake, on_sleep, step,
}

-- The daemons that are reached by announcing the profile, by reapplying the persisted settings, and
-- by changes of the files that are not the daemon's.
pub data Reaches (K : Kernel) (d : Daemon) : Daemon → Type 0 where
  stays : Reaches K d d
  announces :
      (e : Daemon)
      → Reaches K d e
      → Reaches K d (record e { signals = e.signals ++ Signal.profile ∷ [] })
  reapplies : (e : Daemon) → Reaches K d e → Reaches K d (reapply_state K e)
  overwritten : (e : Daemon) (root : Sysfs) → Reaches K d e → Reaches K d (record e { root = root })

Reaches-if :
    (K : Kernel) (d : Daemon) (b : Bool) (x y : App)
    → Reaches K d x.daemon
    → Reaches K d y.daemon
    → Reaches K d (if b then x else y).daemon
Reaches-if K d true x y h i = h
Reaches-if K d false x y h i = i

module _ (W : Outside) where
  Reaches-sent :
      (d e : Daemon) (r : Result String (Unit {0}))
      → Reaches W.kernel d e
      → Reaches W.kernel d (sent W Signal.profile r e).1
  Reaches-sent d e (ok u) h = announces e h
  Reaches-sent d e (err x) h = h

  Reaches-notify : (d e : Daemon) → Reaches W.kernel d e → Reaches W.kernel d (notify W e)
  unfolding notify_profile_changed emit
  Reaches-notify d e h = Reaches-sent d e (W.send e.signals Signal.profile) h

  Reaches-on_wait :
      (d : Daemon) (a : App) (v : Wait)
      → Reaches W.kernel d a.daemon
      → Reaches W.kernel d (on_wait W a v).daemon
  Reaches-on_wait d a (changed p w rest) h = Reaches-notify d a.daemon h
  Reaches-on_wait d a (waiting w) h = h
  Reaches-on_wait d a (stuck w) h = h

  Reaches-on_wake :
      (d : Daemon) (a : App) (v : Wake) (o : Option ProfileWatcher)
      → Reaches W.kernel d a.daemon
      → Reaches W.kernel d (on_wake W a v o).daemon
  Reaches-on_wake d a v none h = h
  Reaches-on_wake d a v (some w) h =
      Reaches-if W.kernel d a.parked a (on_wait W a (next_change w (v ∷ []))) h
        (Reaches-on_wait d a (next_change w (v ∷ [])) h)

  Reaches-on_sleep :
      (d e : Daemon) (resuming : Bool)
      → Reaches W.kernel d e
      → Reaches W.kernel d (on_sleep W resuming e)
  Reaches-on_sleep d e true h = Reaches-notify d (reapply_state W.kernel e) (reapplies e h)
  Reaches-on_sleep d e false h = h

-- What stays of a daemon that is reached so.
pub record IsKept (d e : Daemon) : Type 0 where
  pub state : e.state ≡ d.state
  pub disk : e.disk ≡ d.disk
  pub authorizer : e.authorizer ≡ d.authorizer
  pub state_path : e.state_path ≡ d.state_path

Reaches-IsKept : (K : Kernel) (d e : Daemon) → Reaches K d e → IsKept d e
unfolding reapply_state
Reaches-IsKept K d _ stays = record {
  state = refl;
  disk = refl;
  authorizer = refl;
  state_path = refl;
}
Reaches-IsKept K d _ (announces e h) =
    let i = Reaches-IsKept K d e h in
    record { state = i.state; disk = i.disk; authorizer = i.authorizer; state_path = i.state_path }
Reaches-IsKept K d _ (overwritten e root h) =
    let i = Reaches-IsKept K d e h in
    record { state = i.state; disk = i.disk; authorizer = i.authorizer; state_path = i.state_path }
Reaches-IsKept K d _ (reapplies e h) =
    let i = Reaches-IsKept K d e h in
    record { state = i.state; disk = i.disk; authorizer = i.authorizer; state_path = i.state_path }

module _ (W : Outside) (a : App) where
  -- What the daemon does of its own accord keeps its state, its state file and its way to
  -- authorize.
  pub wake-IsKept : (v : Wake) → IsKept a.daemon (step W a (wake v)).daemon
  wake-IsKept v =
      Reaches-IsKept W.kernel a.daemon (step W a (wake v)).daemon
        (Reaches-on_wake W a.daemon a v a.watcher stays)

  pub sleep-IsKept : (start : Bool) → IsKept a.daemon (step W a (prepare_for_sleep start)).daemon
  sleep-IsKept start =
      Reaches-IsKept W.kernel a.daemon (step W a (prepare_for_sleep start)).daemon
        (Reaches-on_sleep W a.daemon a.daemon (not start) stays)

-- Polkit refuses every caller.
pub record IsRefusing (W : Outside) (d : Daemon) : Type 0 where
  pub refused : (hdr : W.bus.Header) → (e : DaemonError) × (check W.bus d.authorizer hdr ≡ err e)
