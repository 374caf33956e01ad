-- ===== src/Gui/Client/Served/Resumed.antt =====
-- The end of a sleep, from logind to the window.
use legion_linux_toolkit_rus.Prelude.{String, true, false, none, some, [], ◌∷◌, ◌≡◌, ◌∙◌}
use legion_linux_toolkit_rus.Prelude.Float.{Floats}
use legion_linux_toolkit_rus.Prelude.Result.{ok}
use legion_linux_toolkit_rus.Text.{◌<>◌}
use legion_linux_toolkit_rus.Bus.{ZbusError, Json, IsJson}
use legion_linux_toolkit_rus.Hw.Sysfs.Laws.{IsAttribute}
use legion_linux_toolkit_rus.Hw.Profile
use legion_linux_toolkit_rus.Hw.Profile.{PowerProfile}
use legion_linux_toolkit_rus.Daemon.Error.{DaemonError}
use legion_linux_toolkit_rus.Daemon.Iface.{Outside, Daemon, Signal}
use legion_linux_toolkit_rus.Daemon.Reapply.Order.{KeepsProfile}
use legion_linux_toolkit_rus.Daemon.Main.{prepare_for_sleep, run}
use legion_linux_toolkit_rus.Daemon.Main.Resume.{resume-restores}
use legion_linux_toolkit_rus.Gui.Client.{Screen, bus_task, pump_all}
use legion_linux_toolkit_rus.Gui.Client.Shown.{IsSettled, TrayShows, always_draws}
use legion_linux_toolkit_rus.Gui.Client.Served.{
  PropertyCache, IsCache, view, opened, seen, refreshed, served, served-reads, Displays,
}
use legion_linux_toolkit_rus.Gui.Client.Served.Changes.{change, change-Displays}

module _ (C : PropertyCache) (F : Floats) (J : Json) (W : Outside) (hdr : W.bus.Header)
    (to_zbus : DaemonError → ZbusError) (display : ZbusError → String) where
  -- The loop of the daemon takes the end of a sleep.
  abbrev pub resume : Daemon → Daemon
  resume d =
      (run W (record { daemon = d; watcher = none; parked = false })
        (prepare_for_sleep false ∷ [])).daemon

  -- When the machine wakes up and the persisted state is reapplied, a window that has subscribed,
  -- and whose sliders can be drawn, displays the persisted profile and the limits as the daemon has
  -- left them; the other properties, the charge mode that is reapplied as well among them, stay as
  -- the window has read them before. The kernel is taken to accept the profile, to keep it in the
  -- `profile` attribute, and to leave it alone on other writes, and the bus to take the signal. The
  -- proxy's cache is taken to do what zbus documents, and JSON texts to read back.
  pub resume-Displays :
      (B : IsCache C) (I : IsJson J) (H : KeepsProfile W.kernel) (d : Daemon) (dir : String)
      (p : PowerProfile) (g : Screen)
      → Profile.device_dir d.root ≡ some dir
      → IsAttribute W.kernel (dir <> "/profile")
      → d.state.profile ≡ some (Profile.as_sysfs p)
      → (Profile.set W.kernel p d.root).0 ≡ ok tt
      → W.send d.signals Signal.profile ≡ ok tt
      → always_draws
          (served C F J W hdr to_zbus display)
          J
          (seen C F)
          (served-reads C F J W hdr to_zbus display I)
          true
          (change C F J W hdr to_zbus display resume d)
          (opened C F d)
        ≡ true
      → IsSettled g.tray
      → (g' : Screen) × (pump_all
            (bus_task
              (served C F J W hdr to_zbus display)
              J
              (ok tt)
              true
              (change C F J W hdr to_zbus display resume d)
              (opened C F d)).0
            g
          ≡ some g')
        × Displays g'.window (refreshed Signal.profile (view F d) (view F (resume d)))
        × TrayShows g'.tray (refreshed Signal.profile (view F d) (view F (resume d)))
        × (g'.window.current_profile ≡ Profile.as_sysfs p)
  unfolding view
  resume-Displays B I H d dir p g found A persisted accepted sends h settled =
      let (held, left, kept) =
        resume-restores W H (record { daemon = d; watcher = none; parked = false }) dir found A p
          persisted accepted sends in
      let (g', e, window, tray) =
        change-Displays C F J W hdr to_zbus display B I resume d Signal.profile g left h settled in
      (g', e, window, tray, window.profile ∙ held)
