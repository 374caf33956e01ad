-- ===== src/Gui/Client/Served/Others.antt =====
-- Calls of other clients, as the window follows them.
use mathlib.Core.List.{append-nil}
use legion_linux_toolkit_rus.Prelude.{
  ℕ, Bool, true, some, List, [], ◌∷◌, ◌++◌, ◌≡◌, sym, ap, ◌∙◌, arith, String,
}
use legion_linux_toolkit_rus.Prelude.Float.{Floats}
use legion_linux_toolkit_rus.Prelude.Result.{ok}
use legion_linux_toolkit_rus.Bus.{ZbusError, Json, IsJson}
use legion_linux_toolkit_rus.Daemon.Error.{DaemonError}
use legion_linux_toolkit_rus.Daemon.Iface.{Outside, Daemon, Signal, Call}
use legion_linux_toolkit_rus.Daemon.Methods.{handle, authorize, persist}
use legion_linux_toolkit_rus.Daemon.Methods.Success.{announced, handle_success}
use legion_linux_toolkit_rus.Gui.Client.{Screen, Input, elsewhere, turn, turns, bus_task, pump_all}
use legion_linux_toolkit_rus.Gui.Client.Shown.{IsSettled, TrayShows, always_draws}
use legion_linux_toolkit_rus.Gui.Client.Served.Changes.{each, change, change-Displays}
use legion_linux_toolkit_rus.Gui.Client.Served.{
  PropertyCache, IsCache, new_signals, new_signals-++, view, opened, follow, seen, refreshed,
  served, served-reads, Displays,
}

module _ (C : PropertyCache) (F : Floats) (J : Json) (W : Outside) (hdr : W.bus.Header)
    (to_zbus : DaemonError → ZbusError) (display : ZbusError → String) where
  -- A call of another client, and the signals that it makes the daemon send.
  abbrev pub other_call :
      Call → W.bus.Header → Daemon → List (Input (served C F J W hdr to_zbus display) J)
  other_call c other d = change C F J W hdr to_zbus display (λ x. (handle W c other x).1) d

  set_ppt-signals :
      (attr : String) (watts : ℕ) (other : W.bus.Header) (d : Daemon)
      → (handle W (Call.set_ppt attr watts) other d).1.signals ≡ d.signals
  unfolding handle authorize persist
  set_ppt-signals attr watts other d = ground arith

  -- A power limit that another client sets reaches neither the window nor the tray, whatever comes
  -- of it: no signal is sent, and the task reports nothing.
  pub set_ppt-unseen :
      (subscribed : Bool) (attr : String) (watts : ℕ) (other : W.bus.Header) (d : Daemon)
      → (turns
          (served C F J W hdr to_zbus display)
          J
          subscribed
          (other_call (Call.set_ppt attr watts) other d)
          (opened C F d)).0
        ≡ []
  unfolding turns turn
  set_ppt-unseen subscribed attr watts other d =
      ap
        (λ (l : List Signal).
          (turns (served C F J W hdr to_zbus display) J subscribed
            (elsewhere (λ w. follow C F (handle W (Call.set_ppt attr watts) other w.daemon).1 w)
              ∷ each C F J W hdr to_zbus display l)
            (opened C F d)).0)
        (ap (new_signals d.signals)
            (set_ppt-signals attr watts other d ∙ sym (append-nil d.signals))
          ∙ new_signals-++ d.signals [])

  -- A call of another client that succeeds and announces a property is followed: a window that has
  -- subscribed, and whose sliders can be drawn, displays that property and the limits as the call
  -- has left them, and the other properties as it has read them before. The proxy's cache is taken
  -- to do what zbus documents, and JSON texts to read back.
  pub other_call-Displays :
      (A : IsCache C) (I : IsJson J) (c : Call) (s : Signal) (other : W.bus.Header) (d : Daemon)
      (g : Screen)
      → (handle W c other d).0 ≡ ok tt
      → announced c ≡ s ∷ []
      → always_draws
          (served C F J W hdr to_zbus display)
          J
          (seen C F)
          (served-reads C F J W hdr to_zbus display I)
          true
          (other_call c other d)
          (opened C F d)
        ≡ true
      → IsSettled g.tray
      → (g' : Screen) × (pump_all
            (bus_task
              (served C F J W hdr to_zbus display)
              J
              (ok tt)
              true
              (other_call c other d)
              (opened C F d)).0
            g
          ≡ some g')
        × Displays g'.window (refreshed s (view F d) (view F (handle W c other d).1))
        × TrayShows g'.tray (refreshed s (view F d) (view F (handle W c other d).1))
  other_call-Displays A I c s other d g done own h settled =
      change-Displays C F J W hdr to_zbus display A I (λ x. (handle W c other x).1) d s g
        ((handle_success W other d c done).1 ∙ ap (λ l. d.signals ++ l) own) h settled
