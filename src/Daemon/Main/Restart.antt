-- ===== src/Daemon/Main/Restart.antt =====
-- A restart of the daemon after a save.
use mathlib.Core.List.{append-nil}
use legion_linux_toolkit_rus.Prelude.{String, some, [], ◌≡◌, ◌≢◌, sym, ◌∙◌, ap}
use legion_linux_toolkit_rus.Prelude.Result.{ok}
use legion_linux_toolkit_rus.Text.{◌<>◌}
use legion_linux_toolkit_rus.Hw.Sysfs.{Sysfs}
use legion_linux_toolkit_rus.Hw.Sysfs.Laws.{IsAttribute}
use legion_linux_toolkit_rus.Hw.Profile
use legion_linux_toolkit_rus.Hw.Profile.{PowerProfile}
use legion_linux_toolkit_rus.Daemon.Auth.{Authorizer}
use legion_linux_toolkit_rus.Daemon.State
use legion_linux_toolkit_rus.Daemon.State.{State, StatePath, Disk}
use legion_linux_toolkit_rus.Daemon.State.RoundTrip.{IsStorage, load-save}
use legion_linux_toolkit_rus.Daemon.Iface.{Outside, Daemon}
use legion_linux_toolkit_rus.Daemon.Reapply.{reapply_state, reapply_limits}
use legion_linux_toolkit_rus.Daemon.Reapply.Order.{KeepsProfile, reapply_state-in_profile}
use legion_linux_toolkit_rus.Daemon.Main.{start}

module _ (W : Outside) (H : KeepsProfile W.kernel) (I : IsStorage W.storage) (path : StatePath)
    (apart : path.path ≢ path.tmp) (authorizer : Authorizer) (s : State) (disk : Disk)
    (saved : (State.save W.storage s path disk).0 ≡ ok tt) (root : Sysfs) (dir : String)
    (found : Profile.device_dir root ≡ some dir) (A : IsAttribute W.kernel (dir <> "/profile"))
    (p : PowerProfile) (persisted : s.profile ≡ some (Profile.as_sysfs p))
    (accepted : (Profile.set W.kernel p root).0 ≡ ok tt) where
  abbrev pub restarted : Daemon
  restarted = start W root (State.save W.storage s path disk).1 path authorizer

  -- The daemon before `reapply_state`.
  abbrev loaded : Daemon
  loaded = record {
    root = root;
    disk = (State.save W.storage s path disk).1;
    signals = [];
    state = State.load W.storage path (State.save W.storage s path disk).1;
    state_path = path;
    authorizer = authorizer;
  }

  loaded-state : loaded.state ≡ s
  loaded-state = load-save W.storage I path apart s disk saved

  -- On a disk that does what the standard library documents, a daemon that starts after a state was
  -- saved has that state; and where the kernel accepts the profile of the state, keeps it in the
  -- `profile` attribute, and leaves it alone on other writes, that profile is active once the
  -- daemon has started.
  pub start-restores : (restarted.state ≡ s) × (Profile.get restarted.root ≡ ok p)
  unfolding start reapply_state reapply_limits
  start-restores =
      let (after, active, left) =
        reapply_state-in_profile W.kernel H loaded dir found A p
          (ap (λ (t : State). t.profile) loaded-state ∙ persisted) accepted loaded.state.ppt []
          (sym (append-nil loaded.state.ppt)) in
      (loaded-state, ap Profile.get left ∙ active)
