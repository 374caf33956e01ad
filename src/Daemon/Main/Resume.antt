-- ===== src/Daemon/Main/Resume.antt =====
-- What the loop of `main` does when logind reports the end of a sleep.
use mathlib.Core.List.{append-nil}
use legion_linux_toolkit_rus.Prelude.{String, false, some, [], ◌∷◌, ◌++◌, ◌≡◌, refl, sym, ap}
use legion_linux_toolkit_rus.Prelude.Result.{ok}
use legion_linux_toolkit_rus.Text.{◌<>◌}
use legion_linux_toolkit_rus.Hw.Sysfs.Laws.{IsAttribute}
use legion_linux_toolkit_rus.Hw.Profile
use legion_linux_toolkit_rus.Hw.Profile.{PowerProfile}
use legion_linux_toolkit_rus.Daemon.Iface.{Outside, Daemon, Signal}
use legion_linux_toolkit_rus.Daemon.Methods.{emit, notify_profile_changed}
use legion_linux_toolkit_rus.Daemon.Property
use legion_linux_toolkit_rus.Daemon.Reapply.{reapply_state, reapply_limits}
use legion_linux_toolkit_rus.Daemon.Reapply.Order.{KeepsProfile, reapply_state-in_profile}
use legion_linux_toolkit_rus.Daemon.Main.{App, prepare_for_sleep, notify, run}

module _ (W : Outside) where
  -- A signal that the bus takes is sent, and nothing else changes.
  pub notify-sends :
      (d : Daemon)
      → W.send d.signals Signal.profile ≡ ok tt
      → notify W d ≡ record d { signals = d.signals ++ Signal.profile ∷ [] }
  unfolding notify_profile_changed emit
  notify-sends d h = rw (notify, h) refl

  module _ (H : KeepsProfile W.kernel) (a : App) (dir : String)
      (found : Profile.device_dir a.daemon.root ≡ some dir)
      (A : IsAttribute W.kernel (dir <> "/profile")) (p : PowerProfile)
      (persisted : a.daemon.state.profile ≡ some (Profile.as_sysfs p))
      (accepted : (Profile.set W.kernel p a.daemon.root).0 ≡ ok tt)
      (delivered : W.send a.daemon.signals Signal.profile ≡ ok tt) where
    abbrev pub resumed : Daemon
    resumed = (run W a (prepare_for_sleep false ∷ [])).daemon

    pub resumed_lem : resumed ≡ record (reapply_state W.kernel a.daemon) {
      signals = a.daemon.signals ++ Signal.profile ∷ [];
    }
    unfolding run reapply_state
    resumed_lem = notify-sends (reapply_state W.kernel a.daemon) delivered

    -- Whatever profile the firmware left behind, once the loop has taken the end of a sleep the
    -- persisted profile is the one that the property reports, the clients have been sent one more
    -- signal, that it changed, and the persisted state is as before. The kernel is taken to accept
    -- the profile, to keep it in the `profile` attribute, and to leave it alone on other writes,
    -- and the bus to take the signal.
    pub resume-restores :
        (Property.profile resumed.root ≡ Profile.as_sysfs p)
        × (resumed.signals ≡ a.daemon.signals ++ Signal.profile ∷ [])
        × (resumed.state ≡ a.daemon.state)
    unfolding Property.profile reapply_state reapply_limits
    resume-restores =
        let (after, active, left) =
          reapply_state-in_profile W.kernel H a.daemon dir found A p persisted accepted
            a.daemon.state.ppt [] (sym (append-nil a.daemon.state.ppt)) in
        (
          rw (ap (λ (d : Daemon). d.root) resumed_lem, left, active) refl,
          ap (λ (d : Daemon). d.signals) resumed_lem,
          ap (λ (d : Daemon). d.state) resumed_lem,
        )
