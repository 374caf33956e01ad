-- ===== src/Daemon/Watch.antt =====
-- crates/legion-daemon/src/watch.rs: the changes that the firmware makes, as the daemon sees them.
-- `next_change` waits for one wake of the descriptor after another; what each wake answers is an
-- element of the list it runs on.
pub mod Changes
pub mod Ends
use legion_linux_toolkit_rus.Prelude.{
  String, Bool, true, false, Option, none, some, List, [], ◌∷◌, if◌then◌else◌,
}
use legion_linux_toolkit_rus.Prelude.Result.{Result, ok, err}
use legion_linux_toolkit_rus.Hw.Error.{IoError, HwResult}
use legion_linux_toolkit_rus.Hw.Sysfs.{Sysfs}
use legion_linux_toolkit_rus.Hw.Profile.{
  PowerProfile, quiet, balanced, performance, extreme, custom,
}
use legion_linux_toolkit_rus.Hw.ProfileWatch.{Reread, consume, open_watch}

-- `ProfileWatcher`, without the descriptor.
pub record ProfileWatcher : Type 0 where
  pub last : Option PowerProfile

-- What `ready_mut` and the read after it answer.
pub data Wake : Type 0 where
  ready : Reread → Wake
  failed : IoError → Wake

-- Where the future stands: it has resolved to a profile and left the watcher, it waits for a wake,
-- or it is pending for ever after a failure of the descriptor.
pub data Wait : Type 0 where
  changed : PowerProfile → ProfileWatcher → List Wake → Wait
  waiting stuck : ProfileWatcher → Wait

abbrev pub same_profile : PowerProfile → PowerProfile → Bool
same_profile quiet quiet = true
same_profile balanced balanced = true
same_profile performance performance = true
same_profile extreme extreme = true
same_profile custom custom = true
same_profile _ _ = false

abbrev pub is_last : Option PowerProfile → PowerProfile → Bool
is_last none p = false
is_last (some q) p = same_profile q p

-- `ProfileWatcher::new`: the registration with the reactor may fail after the file is open.
abbrev registered : HwResult String → Result IoError (Unit {0}) → Option ProfileWatcher
registered (err e) reg = none
registered (ok rel) (err e) = none
registered (ok rel) (ok u) = some (record { last = none })

unfoldable pub new :
    Sysfs
    → (String → Result IoError (Unit {0}))
    → Reread
    → Result IoError (Unit {0})
    → Option ProfileWatcher
unfolding open_watch
new root open_file first reg = registered (open_watch root open_file first) reg

-- What a wake with a value does, given where the loop would go next.
abbrev on_value : ProfileWatcher → HwResult PowerProfile → List Wake → Wait → Wait
on_value w (err e) rest next = next
on_value w (ok p) rest next =
    if is_last w.last p then next else changed p (record w { last = some p }) rest

-- `ProfileWatcher::next_change`
unfoldable pub next_change : ProfileWatcher → List Wake → Wait
unfolding consume
next_change w [] = waiting w
next_change w (failed e ∷ rest) = stuck w
next_change w (ready r ∷ rest) = on_value w (consume r) rest (next_change w rest)

-- `next_change` of the module: without a watcher the arm never resolves.
unfoldable pub next_change_of : Option ProfileWatcher → List Wake → Option Wait
unfolding next_change
next_change_of none wakes = none
next_change_of (some w) wakes = some (next_change w wakes)
