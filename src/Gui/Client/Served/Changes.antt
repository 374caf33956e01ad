-- ===== src/Gui/Client/Served/Changes.antt =====
-- Changes of the daemon that the window does not make, and the signals that they send.
use mathlib.Core.Path.{subst}
use legion_linux_toolkit_rus.Prelude.{String, true, some, List, [], ◌∷◌, ◌++◌, ◌≡◌, ap, ◌∙◌}
use legion_linux_toolkit_rus.Prelude.Float.{Floats}
use legion_linux_toolkit_rus.Prelude.Result.{ok}
use legion_linux_toolkit_rus.Bus.{ZbusError, Json, IsJson}
use legion_linux_toolkit_rus.Daemon.Error.{DaemonError}
use legion_linux_toolkit_rus.Daemon.Iface.{Outside, Daemon, Signal}
use legion_linux_toolkit_rus.Gui.Snapshot.{Server}
use legion_linux_toolkit_rus.Gui.Client.{
  Screen, Input, signal, elsewhere, turn, turns, bus_task, pump_all,
}
use legion_linux_toolkit_rus.Gui.Client.Shown.{IsSettled, TrayShows, current, always_draws}
use legion_linux_toolkit_rus.Gui.Client.Served.{
  PropertyCache, IsCache, new_signals, new_signals-++, view, opened, follow, seen, refreshed,
  served, served-reads, seen-follow, Displays, bus_task-Displays,
}

module _ (C : PropertyCache) (F : Floats) (J : Json) (W : Outside) (hdr : W.bus.Header)
    (to_zbus : DaemonError → ZbusError) (display : ZbusError → String) where
  abbrev S : Server
  S = served C F J W hdr to_zbus display

  -- The task gets each of the signals.
  abbrev pub each : List Signal → List (Input S J)
  each [] = []
  each (s ∷ rest) = signal ∷ each rest

  -- A change of the daemon, and the signals that the daemon sends by it.
  abbrev pub change : (Daemon → Daemon) → Daemon → List (Input S J)
  change f d =
      elsewhere (λ w. follow C F (f w.daemon) w) ∷ each (new_signals d.signals (f d).signals)

  change-sent :
      (f : Daemon → Daemon) (d : Daemon) (s : Signal)
      → (f d).signals ≡ d.signals ++ s ∷ []
      → change f d ≡ elsewhere (λ w. follow C F (f w.daemon) w) ∷ signal ∷ []
  change-sent f d s sent =
      ap (λ (l : List Signal). elsewhere (λ w. follow C F (f w.daemon) w) ∷ each l)
        (ap (new_signals d.signals) sent ∙ new_signals-++ d.signals (s ∷ []))

  change-current :
      (f : Daemon → Daemon) (d : Daemon) (s : Signal)
      → (f d).signals ≡ d.signals ++ s ∷ []
      → current S J true true (change f d) ≡ true
  change-current f d s sent = ap (current S J true true) (change-sent f d s sent)

  change-left :
      (f : Daemon → Daemon) (d : Daemon) (s : Signal)
      → (f d).signals ≡ d.signals ++ s ∷ []
      → (bus_task S J (ok tt) true (change f d) (opened C F d)).1 ≡ follow C F (f d) (opened C F d)
  unfolding bus_task turns turn
  change-left f d s sent =
      ap (λ (l : List (Input S J)). (bus_task S J (ok tt) true l (opened C F d)).1)
        (change-sent f d s sent)

  -- A change that sends one signal is followed: a window that has subscribed, and whose sliders can
  -- be drawn, displays the property that the signal announces, and the limits, as the change has
  -- left them, and the other properties as it has read them before.
  pub change-Displays :
      (A : IsCache C) (I : IsJson J) (f : Daemon → Daemon) (d : Daemon) (s : Signal) (g : Screen)
      → (f d).signals ≡ d.signals ++ s ∷ []
      → always_draws S J
          (seen C F)
          (served-reads C F J W hdr to_zbus display I)
          true
          (change f d)
          (opened C F d)
        ≡ true
      → IsSettled g.tray
      → (g' : Screen) × (pump_all (bus_task S J (ok tt) true (change f d) (opened C F d)).0 g
          ≡ some g')
        × Displays g'.window (refreshed s (view F d) (view F (f d)))
        × TrayShows g'.tray (refreshed s (view F d) (view F (f d)))
  change-Displays A I f d s g announced h settled =
      let (g', e, window, tray) =
        bus_task-Displays C F J W hdr to_zbus display I true (change f d) (opened C F d) g h
          (change-current f d s announced) settled in
      let left =
        ap (seen C F) (change-left f d s announced) ∙ seen-follow C F A d (f d) s announced in
      (g', e, subst (Displays g'.window) left window, subst (TrayShows g'.tray) left tray)
