-- ===== src/Tests/Restart.antt =====
-- A daemon that runs and is restarted, on a disk that takes every save.
use legion_linux_toolkit_rus.Daemon.Auth
use legion_linux_toolkit_rus.Daemon.Methods
use legion_linux_toolkit_rus.Hw.FirmwareAttrs
use legion_linux_toolkit_rus.Hw.Profile
use legion_linux_toolkit_rus.Hw.Sysfs
use legion_linux_toolkit_rus.Text
use legion_linux_toolkit_rus.Prelude.{
  ℕ, String, true, false, Option, none, some, List, [], ◌∷◌, ◌++◌, ◌≡◌, ◌≢◌, refl,
}
use legion_linux_toolkit_rus.Prelude.Result.{ok}
use legion_linux_toolkit_rus.Text.Append.{ne_of_test}
use legion_linux_toolkit_rus.Daemon.Auth.{Authorizer}
use legion_linux_toolkit_rus.Daemon.State
use legion_linux_toolkit_rus.Daemon.State.{State, Storage, Disk}
use legion_linux_toolkit_rus.Daemon.State.RoundTrip.{IsStorage}
use legion_linux_toolkit_rus.Daemon.Iface.{Outside, Call}
use legion_linux_toolkit_rus.Daemon.Main.{App, Event, prepare_for_sleep, call, start, run}
use legion_linux_toolkit_rus.Daemon.Main.History.{recorded_by, replies, run-recorded}
use legion_linux_toolkit_rus.Daemon.Main.Remembers.{start-run, start-run_saved}
use legion_linux_toolkit_rus.Hw.Error.{HwError, plain, quoted}
use legion_linux_toolkit_rus.Hw.Sysfs.{Sysfs}
use legion_linux_toolkit_rus.Daemon.State.Limits.{lookup}
use legion_linux_toolkit_rus.Daemon.Methods.{set_ppt}
use legion_linux_toolkit_rus.Daemon.Reapply.{reapply_state}
use legion_linux_toolkit_rus.Daemon.Reapply.Unknown.{set_ppt-unrestored}
use legion_linux_toolkit_rus.Tests.Codec.{Codec, nat, text, option, list, pair, kept_as, whole}
use legion_linux_toolkit_rus.Tests.Machine.{machine, keeping}
use legion_linux_toolkit_rus.Tests.Host.{outside, daemon, storage, storage-IsStorage, state_file}

abbrev StateFields : Type 0
StateFields = Option String × (Option String × List (String × ℕ))

abbrev state_to : State → StateFields
state_to s = (s.profile, (s.battery_mode, s.ppt))

abbrev state_from : StateFields → State
state_from p = record { profile = p.0; battery_mode = p.1.0; ppt = p.1.1 }

states : Codec State
states =
    kept_as (pair (option text) (pair (option text) (list (pair text nat)))) state_to state_from
      (λ b. refl)

-- Storage that has a text for every state.
abbrev disk_of_all : Storage
disk_of_all = record storage {
  to_string_pretty = λ s. ok (states.put s "");
  from_str = λ t. whole (states.take t);
}

stored :
    (s : State) (t : String)
    → disk_of_all.to_string_pretty s ≡ ok t
    → disk_of_all.from_str t ≡ some s
stored s t h = let e : states.put s "" ≡ t = cc in rw (← e, states.law s "") refl

disk_of_all-IsStorage : IsStorage disk_of_all
disk_of_all-IsStorage = record {
  wrote = storage-IsStorage.wrote;
  write_keeps = storage-IsStorage.write_keeps;
  renamed = storage-IsStorage.renamed;
  not_renamed = storage-IsStorage.not_renamed;
  made = storage-IsStorage.made;
  decodes = stored;
}

abbrev keeper : Outside
keeper = record outside { storage = disk_of_all }

apart : state_file.path ≢ state_file.tmp
apart = ne_of_test state_file.path state_file.tmp refl

app : App
app = record { daemon = daemon; watcher = none; parked = false }

-- A profile that is set, limits in two profiles, a caller who is refused, and a resume.
abbrev events : List (Event keeper)
events =
    call (Call.set_profile "quiet") true
    ∷ call (Call.set_ppt "spl" 80) true
    ∷ call (Call.set_profile "balanced") false
    ∷ prepare_for_sleep false
    ∷ call (Call.set_profile "custom") true
    ∷ call (Call.set_ppt "spl" 80) true
    ∷ []

recorded_example :
    (run keeper app events).daemon.state ≡ recorded_by (replies keeper app events) State.default
unfolding app
recorded_example = run-recorded keeper events app

moment_example :
    (before : List (Event keeper)) × (after : List (Event keeper)) × (events ≡ before ++ after)
    × ((start keeper machine (run keeper app events).daemon.disk state_file Authorizer.polkit).state
        ≡ recorded_by (replies keeper app before) State.default)
unfolding app State.load
moment_example =
    start-run keeper disk_of_all-IsStorage state_file apart app events machine Authorizer.polkit
      refl refl

saves : (s : State) (disk : Disk) → (State.save disk_of_all s state_file disk).0 ≡ ok tt
unfolding State.save
saves s disk = refl

nothing_lost_example :
    (start keeper machine (run keeper app events).daemon.disk state_file Authorizer.polkit).state
    ≡ recorded_by (replies keeper app events) State.default
unfolding app State.load
nothing_lost_example =
    start-run_saved keeper disk_of_all-IsStorage state_file apart saves app events machine
      Authorizer.polkit refl refl

-- The settings that are recorded in that run.
settings :
    recorded_by (replies keeper app events) State.default
    ≡ record { profile = some "custom"; battery_mode = none; ppt = ("spl", 80) ∷ [] }
unfolding app recorded_by replies Methods.authorize Auth.check Methods.emit Profile.from_user
    Text.is_whitespace Profile.set Methods.persist Profile.get FirmwareAttrs.write_by_name
    Sysfs.exists FirmwareAttrs.from_key Sysfs.read_parsed Text.parse_unsigned Sysfs.read_parsed_opt
    State.set_ppt
settings = refl

unknown : HwError
unknown = HwError.parse (plain "unknown power-limit attribute " ∷ quoted "gpu_temp" ∷ [])

unrestored_example :
    (lookup "gpu_temp" (set_ppt keeper "gpu_temp" 80 true daemon).1.state.ppt ≡ some 80)
    × ((root : Sysfs)
        → (reapply_state keeping
            (record (set_ppt keeper "gpu_temp" 80 true daemon).1 { root = root })).root
          ≡ (reapply_state keeping (record daemon { root = root })).root)
unfolding unknown FirmwareAttrs.from_key Text.is_whitespace set_ppt Methods.authorize Auth.check
    Profile.get FirmwareAttrs.write_by_name Sysfs.exists Sysfs.read_parsed Text.parse_unsigned
    Sysfs.read_parsed_opt Methods.persist
unrestored_example = set_ppt-unrestored keeper true daemon "gpu_temp" 80 unknown refl refl
