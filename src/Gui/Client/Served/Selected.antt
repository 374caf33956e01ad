-- ===== src/Gui/Client/Served/Selected.antt =====
-- What a selection in the window brings about.
use legion_linux_toolkit_rus.Prelude.{Bool, true, String, some, [], ◌∷◌, ◌++◌, ◌≡◌, refl, ap, ◌∙◌}
use legion_linux_toolkit_rus.Prelude.Float.{Floats}
use legion_linux_toolkit_rus.Prelude.Result.{ok}
use legion_linux_toolkit_rus.Text.{◌<>◌}
use legion_linux_toolkit_rus.Bus.{ZbusError, Json, IsJson}
use legion_linux_toolkit_rus.Hw.Sysfs.Laws.{IsAttribute}
use legion_linux_toolkit_rus.Hw.Profile
use legion_linux_toolkit_rus.Hw.Profile.{PowerProfile}
use legion_linux_toolkit_rus.Daemon.Error.{DaemonError}
use legion_linux_toolkit_rus.Daemon.Iface.{Outside, Daemon, Signal, Call}
use legion_linux_toolkit_rus.Daemon.Methods.{handle, set_profile}
use legion_linux_toolkit_rus.Daemon.Methods.Effects.{set_profile-shown}
use legion_linux_toolkit_rus.Daemon.Methods.Success.{handle_success}
use mathlib.Core.Path.{subst}
use legion_linux_toolkit_rus.Gui.Snapshot.{apply, to_call}
use legion_linux_toolkit_rus.Gui.Window.{select_profile, wire_callbacks}
use legion_linux_toolkit_rus.Gui.Client.{Screen, request, turn, turns, bus_task, pump_all}
use legion_linux_toolkit_rus.Gui.Client.Shown.{IsSettled, always_draws}
use legion_linux_toolkit_rus.Gui.Client.Served.{
  PropertyCache, IsCache, view, opened, follow, seen, seen-follow, served, served-reads, Displays,
  bus_task-Displays,
}

module _ (C : PropertyCache) (F : Floats) (J : Json) (W : Outside) (hdr : W.bus.Header)
    (to_zbus : DaemonError → ZbusError) (display : ZbusError → String) where
  -- What a selected profile leaves.
  selected-left :
      (subscribed : Bool) (value : String) (d : Daemon)
      → (bus_task
          (served C F J W hdr to_zbus display)
          J
          (ok tt)
          subscribed
          (request (wire_callbacks (select_profile value)) ∷ [])
          (opened C F d)).1
        ≡ follow C F (set_profile W value hdr d).1 (opened C F d)
  unfolding bus_task turns turn apply to_call wire_callbacks handle
  selected-left subscribed value d = refl

  set_profile-sent :
      (value : String) (d : Daemon)
      → (set_profile W value hdr d).0 ≡ ok tt
      → (set_profile W value hdr d).1.signals ≡ d.signals ++ Signal.profile ∷ []
  unfolding handle
  set_profile-sent value d done = (handle_success W hdr d (Call.set_profile value) done).1

  -- On a device whose `profile` attribute keeps what is written, a profile that the user selects
  -- and the daemon sets is the one that the window displays afterwards, named as the kernel names
  -- it; the window does not panic, where its sliders can be drawn. The proxy's cache is taken to do
  -- what zbus documents, and JSON texts to read back.
  pub select_profile-displayed :
      (B : IsCache C) (I : IsJson J) (subscribed : Bool) (value dir : String) (d : Daemon)
      (g : Screen)
      → Profile.device_dir d.root ≡ some dir
      → IsAttribute W.kernel (dir <> "/profile")
      → (set_profile W value hdr d).0 ≡ ok tt
      → always_draws
          (served C F J W hdr to_zbus display)
          J
          (seen C F)
          (served-reads C F J W hdr to_zbus display I)
          subscribed
          (request (wire_callbacks (select_profile value)) ∷ [])
          (opened C F d)
        ≡ true
      → IsSettled g.tray
      → (p : PowerProfile) × (g' : Screen) × (Profile.from_user value ≡ ok p)
        × (pump_all
              (bus_task
                (served C F J W hdr to_zbus display)
                J
                (ok tt)
                subscribed
                (request (wire_callbacks (select_profile value)) ∷ [])
                (opened C F d)).0
              g
            ≡ some g')
        × (g'.window.current_profile ≡ Profile.as_sysfs p)
  unfolding view
  select_profile-displayed B I subscribed value dir d g found A done h settled =
      let (p, named, shown, kept) = set_profile-shown W hdr d value dir found A done in
      let (g', e, window, tray) =
        bus_task-Displays C F J W hdr to_zbus display I subscribed
          (request (wire_callbacks (select_profile value)) ∷ []) (opened C F d) g h refl settled in
      let left =
        ap (seen C F) (selected-left subscribed value d)
        ∙ seen-follow C F B d (set_profile W value hdr d).1 Signal.profile
            (set_profile-sent value d done) in
      (p, g', named, e, (subst (Displays g'.window) left window).profile ∙ shown)
