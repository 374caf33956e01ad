-- ===== src/Gui/Client.antt =====
-- crates/legion-gui/src/main.rs: the task that talks to the daemon, and the pump that brings what
-- it reports to the tray and the window. The task runs on the list of what `select!` yields.
pub mod Answered
pub mod Shown
pub mod Served
use legion_linux_toolkit_rus.Prelude.{
  String, Bool, true, false, Option, none, some, List, [], ◌∷◌, ◌++◌,
}
use legion_linux_toolkit_rus.Prelude.Result.{Result, ok, err}
use legion_linux_toolkit_rus.Bus.{Json}
use legion_linux_toolkit_rus.Gui.Snapshot
use legion_linux_toolkit_rus.Gui.Snapshot.{Snapshot, Request, Server}
use legion_linux_toolkit_rus.Gui.Tray.{TrayHandle, update}
use legion_linux_toolkit_rus.Gui.Window.{Window, apply_snapshot}
use mathlib.Core.Option

pub data Event : Type 0 where
  snapshot : Snapshot → Event
  toast disconnected : String → Event

-- The event of `refresh`.
abbrev pub report : Result String Snapshot → Event
report (ok s) = Event.snapshot s
report (err e) = Event.disconnected e

abbrev pub toasts : Option String → List Event
toasts none = []
toasts (some msg) = Event.toast msg ∷ []

module _ (S : Server) (J : Json) where
  open S use {World}

  unfoldable pub refresh : World → Event
  unfolding Snapshot.snapshot
  refresh w = report (Snapshot.snapshot S J w)

  -- What the task meets: a request of the window or the tray, a `PropertiesChanged` signal, or a
  -- change of the world that is not the window's.
  pub data Input : Type 0 where
    request : Request → Input
    signal : Input
    elsewhere : (World → World) → Input

  -- One turn of the loop, with whether the subscription succeeded.
  unfoldable pub turn : Bool → Input → World → List Event × World
  unfolding Snapshot.apply refresh
  turn subscribed (request r) w =
      let (msg, after) = Snapshot.apply S r w in (toasts msg ++ refresh after ∷ [], after)
  turn true signal w = (refresh w ∷ [], w)
  turn false signal w = ([], w)
  turn subscribed (elsewhere f) w = ([], f w)

  -- The turns of the loop, one after the other.
  unfoldable pub turns : Bool → List Input → World → List Event × World
  unfolding turn
  turns subscribed [] w = ([], w)
  turns subscribed (i ∷ rest) w =
      let (events, between) = turn subscribed i w in
      let (more, after) = turns subscribed rest between in (events ++ more, after)

  -- `bus_task`: a task that does not connect reports that, and returns.
  unfoldable pub bus_task :
      Result String (Unit {0}) → Bool → List Input → World → List Event × World
  unfolding turns refresh
  bus_task (err e) subscribed inputs w = (Event.disconnected e ∷ [], w)
  bus_task (ok u) subscribed inputs w =
      let (events, after) = turns subscribed inputs w in (refresh w ∷ events, after)

-- What the pump drives: the window, and the tray where there is a host for it.
pub record Screen : Type 0 where
  pub window : Window
  pub tray : Option TrayHandle

unfoldable pub update_tray : Snapshot → Option TrayHandle → Option TrayHandle
unfolding update
update_tray snap none = none
update_tray snap (some t) = some (update snap t)

-- The screen with a window; `none` is a panic.
abbrev pub with_window : Option TrayHandle → Option Window → Option Screen
with_window tray none = none
with_window tray (some ui) = some (record { window = ui; tray = tray })

-- One round of the pump.
unfoldable pub pump : Event → Screen → Option Screen
unfolding apply_snapshot update_tray
pump (Event.snapshot snap) g = with_window (update_tray snap g.tray) (apply_snapshot snap g.window)
pump (Event.toast msg) g = some (record g { window = record g.window { toast = msg } })
pump (Event.disconnected why) g =
    some (record g { window = record g.window { daemon_connected = false; daemon_error = why } })

abbrev pub and_then {ℓ} : {A B : Type ℓ} → Option A → (A → Option B) → Option B
and_then none f = none
and_then (some a) f = f a

-- The rounds of the pump, until a panic.
unfoldable pub pump_all : List Event → Screen → Option Screen
unfolding pump
pump_all [] g = some g
pump_all (e ∷ rest) g = and_then (pump e g) (pump_all rest)
