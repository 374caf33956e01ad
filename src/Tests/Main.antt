-- ===== src/Tests/Main.antt =====
-- The theorems about the program of the daemon.
use legion_linux_toolkit_rus.Prelude.{true, false, none, List, [], ◌∷◌, ◌≡◌, refl, filter}
use legion_linux_toolkit_rus.Prelude.Result.{ok}
use legion_linux_toolkit_rus.Daemon.Iface.{Call}
use legion_linux_toolkit_rus.Daemon.Main.{App, Event, launch, call, prepare_for_sleep, run}
use legion_linux_toolkit_rus.Daemon.Main.Denied.{permitted, run-permitted}
use legion_linux_toolkit_rus.Tests.Machine.{machine}
use legion_linux_toolkit_rus.Tests.Host.{outside, empty_disk, state_file, daemon}

abbrev app : App
app = record { daemon = daemon; watcher = none; parked = false }

-- A caller who may not, a suspend, and a caller who may.
abbrev events : List (Event outside)
events =
    call (Call.set_fn_lock true) false
    ∷ prepare_for_sleep true
    ∷ call (Call.set_ppt "spl" 80) true
    ∷ prepare_for_sleep false
    ∷ []

permitted_example : run outside app events ≡ run outside app (filter (permitted outside) events)
unfolding launch
permitted_example =
    run-permitted outside (ok tt) (ok tt) machine empty_disk state_file daemon none events refl
