-- ===== src/Tests/Daemon.antt =====
-- The theorems about the state file, the settings that are reapplied, and the loop.
use legion_linux_toolkit_rus.Hw.Sysfs
use legion_linux_toolkit_rus.Text
use Prim.Native.String
use Prim.Native.Char
use legion_linux_toolkit_rus.Daemon.Auth
use legion_linux_toolkit_rus.Prelude.{
  ℕ, String, Bool, true, false, none, some, List, [], ◌∷◌, ◌≡◌, ◌≢◌, ◌⊎◌, refl, sym, ◌∙◌, ap, arith,
  ◌==◌, if◌then◌else◌,
}
use legion_linux_toolkit_rus.Prelude.Result.{ok, err}
use legion_linux_toolkit_rus.Text.{◌<>◌}
use legion_linux_toolkit_rus.Text.Append.{ne_of_test}
use legion_linux_toolkit_rus.Hw.Sysfs.{Sysfs}
use legion_linux_toolkit_rus.Hw.Profile
use legion_linux_toolkit_rus.Hw.Profile.{PowerProfile, quiet, balanced, custom}
use legion_linux_toolkit_rus.Hw.Profile.Device.{dir_of}
use legion_linux_toolkit_rus.Hw.Profile.RoundTrip.{
  last_but_one, last_but_one-name, last_but_one-profile,
}
use legion_linux_toolkit_rus.Hw.Battery.{charge_file}
use legion_linux_toolkit_rus.Hw.FirmwareAttrs.Writes.{current_file}
use legion_linux_toolkit_rus.Daemon.State
use legion_linux_toolkit_rus.Daemon.State.{State, Disk}
use legion_linux_toolkit_rus.Daemon.State.RoundTrip.{load-save}
use legion_linux_toolkit_rus.Daemon.State.Crash.{torn, load-Crashed}
use legion_linux_toolkit_rus.Daemon.Iface.{Daemon, Call, Outside}
use legion_linux_toolkit_rus.Daemon.Reapply.{reapply_state, reapply_limits}
use legion_linux_toolkit_rus.Hw.FirmwareAttrs
use legion_linux_toolkit_rus.Hw.FirmwareAttrs.{AttrInfo}
use legion_linux_toolkit_rus.Daemon.Reapply.Limits.{read_attr-reapply_limits}
use legion_linux_toolkit_rus.Daemon.Reapply.Order.{
  KeepsProfile, SameProfile, reapply_state-in_profile,
}
use legion_linux_toolkit_rus.Daemon.Watch.{ProfileWatcher, Wake, ready, failed}
use legion_linux_toolkit_rus.Daemon.Watch.Changes.{changes, readings, dedup, changes-dedup}
use legion_linux_toolkit_rus.Daemon.Main.{App, Event, wake, prepare_for_sleep, call, run}
use legion_linux_toolkit_rus.Daemon.Main.{start}
use legion_linux_toolkit_rus.Daemon.Watch.Ends.{IsResolved, IsPending, next_change-ends}
use legion_linux_toolkit_rus.Daemon.Main.Restart.{start-restores}
use legion_linux_toolkit_rus.Daemon.Auth.{Authorizer}
use legion_linux_toolkit_rus.Tests.Machine.{
  machine, device, keeping, keeping-IsAttribute, keeps_other, test-false, missing,
}
use legion_linux_toolkit_rus.Tests.Host.{
  outside, daemon, storage, storage-IsStorage, state_file, empty_disk,
}

abbrev saved : State
saved = record { profile = some "custom"; battery_mode = none; ppt = [] }

apart : state_file.path ≢ state_file.tmp
apart = ne_of_test state_file.path state_file.tmp refl

load-save_example :
    State.load storage state_file (State.save storage saved state_file empty_disk).1 ≡ saved
unfolding State.save
load-save_example = load-save storage storage-IsStorage state_file apart saved empty_disk refl

-- The temporary file with the first half of the text of the state.
abbrev torn_disk : Disk
torn_disk q = if q == state_file.tmp then ok "=cus" else err missing

torn_same : (q : String) → q ≢ state_file.tmp → torn_disk q ≡ empty_disk q
torn_same q ne = rw (test-false q state_file.tmp ne) refl

crash_example :
    (State.load storage state_file torn_disk ≡ State.load storage state_file empty_disk)
    ⊎ (State.load storage state_file torn_disk ≡ saved)
crash_example =
    load-Crashed storage storage-IsStorage state_file apart saved empty_disk torn_disk
      (torn "=custom" torn_disk refl torn_same)

-- A daemon that has the Balanced profile and a limit to reapply.
abbrev pub persisting : Daemon
persisting = record daemon {
  state = record {
    profile = some "balanced";
    battery_mode = some "Long_Life";
    ppt = ("spl", 80) ∷ [];
  };
}

last_but_one-current : (a b : ℕ) (s : String) → last_but_one a b (s <> "/current_value") ≡ b'u'
unfolding last_but_one
last_but_one-current a b Prim.Native.String.[] = refl
last_but_one-current a b (Prim.Native.String.◌∷◌ c s) =
    last_but_one-current b (Prim.Native.Char.code c) s

-- A file that ends like neither `name` nor `profile` is none that the profile is read from.
same_profile :
    (root : Sysfs) (rel v : String)
    → last_but_one 0 0 rel ≢ b'm'
    → last_but_one 0 0 rel ≢ b'l'
    → SameProfile root (keeping root rel v).1
same_profile root rel v m l = record {
  dirs = refl;
  names = λ e.
      keeps_other root rel v (dir_of e <> "/name")
        (λ p. m (ap (last_but_one 0 0) (sym p) ∙ last_but_one-name 0 0 (dir_of e)));
  profiles = λ e.
      keeps_other root rel v (e <> "/profile")
        (λ p. l (ap (last_but_one 0 0) (sym p) ∙ last_but_one-profile 0 0 e));
}

pub keeping-KeepsProfile : KeepsProfile keeping
unfolding last_but_one
keeping-KeepsProfile = record {
  on_charge =
      λ root v. same_profile root charge_file v (λ e. omega (arith, e)) (λ e. omega (arith, e));
  on_limit = λ root name v.
      same_profile root (current_file name) v
        (λ e. omega (arith, e, last_but_one-current b's' b'/' name))
        (λ e. omega (arith, e, last_but_one-current b's' b'/' name));
}

reapply_example :
    (root : Sysfs) × (Profile.get root ≡ ok balanced)
    × ((reapply_state keeping persisting).root ≡ reapply_limits keeping (("spl", 80) ∷ []) root)
unfolding Profile.set Profile.device_dir Profile.as_sysfs Text.trim Text.is_whitespace
reapply_example =
    reapply_state-in_profile keeping keeping-KeepsProfile persisting device refl
      (keeping-IsAttribute (device <> "/profile")) balanced refl refl [] (("spl", 80) ∷ []) refl

-- Fn+Q from Balanced to Quiet, with a wake for each write, and a read that fails.
abbrev reads : String → Wake
reads s = ready (record { seek = ok tt; content = ok s })

abbrev wakes : List Wake
wakes =
    reads "balanced\n"
    ∷ reads "balanced\n"
    ∷ ready (record { seek = err missing; content = err missing })
    ∷ reads "low-power\n"
    ∷ failed missing
    ∷ reads "custom\n"
    ∷ []

abbrev fresh : ProfileWatcher
fresh = record { last = none }

changes_example : changes 6 fresh wakes ≡ dedup none (readings wakes)
changes_example = changes-dedup wakes 6 fresh (omega arith)

-- Polkit refuses everyone.
abbrev strict : Outside
strict = record outside {
  bus = record {
    Header = Bool;
    Subject = Bool;
    new_for_message_header = λ h. ok h;
    check_authorization = λ s action. ok false;
  };
}

abbrev app : App
app = record { daemon = daemon; watcher = some fresh; parked = false }

abbrev events : List (Event strict)
events =
    wake (reads "low-power\n")
    ∷ call (Call.set_profile "quiet") true
    ∷ prepare_for_sleep true
    ∷ prepare_for_sleep false
    ∷ call (Call.set_ppt "spl" 80) false
    ∷ []

abbrev restarted_here : Daemon
restarted_here =
    start outside machine (State.save storage saved state_file empty_disk).1 state_file
      Authorizer.polkit

start-restores_example :
    (restarted_here.state ≡ saved) × (Profile.get restarted_here.root ≡ ok custom)
unfolding State.save Profile.device_dir Text.trim Text.is_whitespace Profile.as_sysfs Profile.set
start-restores_example =
    start-restores outside keeping-KeepsProfile storage-IsStorage state_file apart Authorizer.polkit
      saved empty_disk refl machine device refl (keeping-IsAttribute (device <> "/profile")) custom
      refl refl

abbrev pub spl_info : AttrInfo
spl_info = record {
  key = "spl";
  display_name = "ppt_pl1_spl";
  current = 70;
  default = 0;
  min = 15;
  max = 115;
  step = 1;
}

limits_example :
    FirmwareAttrs.read_attr
      (reapply_limits keeping (("sppt", 90) ∷ ("spl", 80) ∷ ("gpu_temp", 60) ∷ []) machine)
      FirmwareAttrs.spl
    ≡ ok (record spl_info { current = 80 })
unfolding FirmwareAttrs.from_key Text.is_whitespace FirmwareAttrs.read_attr Sysfs.exists
    Sysfs.read_parsed Text.parse_unsigned FirmwareAttrs.short_key Sysfs.read_opt
    Sysfs.read_parsed_opt FirmwareAttrs.write_attr reapply_limits
limits_example =
    read_attr-reapply_limits keeping
      (λ b. keeping-IsAttribute (current_file (FirmwareAttrs.dir_name b))) FirmwareAttrs.spl "spl"
      80 (("sppt", 90) ∷ []) (("gpu_temp", 60) ∷ []) machine spl_info refl ((λ e. cc), tt)
      ((λ e. cc), tt) (omega arith) refl refl

-- Balanced is persisted; the machine wakes up in Custom.
abbrev asleep : App
asleep = record { daemon = persisting; watcher = none; parked = true }

abbrev woken : Daemon
woken = (run outside asleep (prepare_for_sleep false ∷ [])).daemon

watch_ends_example : IsResolved fresh wakes ⊎ IsPending fresh wakes
watch_ends_example = next_change-ends wakes fresh
