-- ===== src/Daemon/Reapply/Nothing.antt =====
-- With nothing persisted there is nothing to reapply.
use legion_linux_toolkit_rus.Prelude.{String, true, Option, none, some, List, [], ◌∷◌, ◌≡◌, refl}
use legion_linux_toolkit_rus.Hw.Sysfs.{Kernel}
use legion_linux_toolkit_rus.Daemon.State
use legion_linux_toolkit_rus.Daemon.State.{State}
use legion_linux_toolkit_rus.Daemon.Iface.{Daemon}
use legion_linux_toolkit_rus.Daemon.Reapply.{
  reapply_state, reapply_limits, reapply_battery, reapply_profile,
}

-- Where `is_empty` finds nothing worth reapplying, reapplying leaves the daemon and the files as
-- they are.
pub reapply_state-is_empty :
    (kernel : Kernel) (d : Daemon) → State.is_empty d.state ≡ true → reapply_state kernel d ≡ d
unfolding reapply_state State.is_empty reapply_limits
reapply_state-is_empty kernel d h = steps d.state.profile d.state.battery_mode d.state.ppt h
  where
    steps :
        (p m : Option String) (l : List (String × Prim.Native.Nat.ℕ))
        → State.is_empty (record { profile = p; battery_mode = m; ppt = l }) ≡ true
        → record d {
          root =
              reapply_limits kernel l (reapply_battery kernel m (reapply_profile kernel p d.root));
        }
          ≡ d
    steps none none [] e = refl
    steps none none (x ∷ xs) e = cc
    steps none (some m) l e = cc
    steps (some p) m l e = cc
