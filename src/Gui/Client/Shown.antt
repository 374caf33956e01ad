-- ===== src/Gui/Client/Shown.antt =====
-- What the window and the tray show after a run of the client.
use legion_linux_toolkit_rus.Prelude.{
  Bool, true, false, ◌&&◌, String, Option, none, some, List, [], ◌∷◌, ◌++◌, ◌≡◌, refl, sym, ◌∙◌,
  arith, Option-cases, inl, inr,
}
use legion_linux_toolkit_rus.Prelude.Result.{ok}
use legion_linux_toolkit_rus.Bus.{Json}
use legion_linux_toolkit_rus.Gui.Slider.{SliderBounds, find_bounds}
use legion_linux_toolkit_rus.Gui.Color.{Rgb}
use legion_linux_toolkit_rus.Gui.Color.Components.{profile_rgb-led}
use legion_linux_toolkit_rus.Gui.Snapshot
use legion_linux_toolkit_rus.Gui.Snapshot.{Snapshot, Request, Server}
use legion_linux_toolkit_rus.Gui.Tray.{TrayHandle, from_snapshot}
use legion_linux_toolkit_rus.Gui.Tray.Menu.{update-shows}
use legion_linux_toolkit_rus.Gui.Window.{Window, apply_snapshot, painted}
use legion_linux_toolkit_rus.Gui.Client.{
  Event, Screen, Input, request, signal, elsewhere, toasts, refresh, turn, turns, bus_task, pump,
  pump_all, update_tray, and_then,
}

-- The tray renders what it holds.
abbrev pub IsSettled : Option TrayHandle → Type 0
IsSettled none = Unit
IsSettled (some t) = t.shown ≡ t.last

abbrev pub TrayShows : Option TrayHandle → Snapshot → Type 0
TrayShows none snap = Unit
TrayShows (some t) snap = t.shown ≡ from_snapshot snap

-- The screen shows a snapshot: the window is one that the snapshot was applied to, and the tray
-- renders it.
pub record Shows (g : Screen) (snap : Snapshot) : Type 0 where
  pub before : Window
  pub window : apply_snapshot snap before ≡ some g.window
  pub tray : TrayShows g.tray snap

abbrev is_some : Option SliderBounds → Bool
is_some none = false
is_some (some b) = true

-- The three sliders of a snapshot can be drawn.
unfoldable pub draws : Snapshot → Bool
draws snap =
    is_some (find_bounds snap.ppt "spl")
    && is_some (find_bounds snap.ppt "sppt")
    && is_some (find_bounds snap.ppt "fppt")

painted-some :
    (snap : Snapshot) (ui : Window) (c : Option Rgb) (a b d : Option SliderBounds) (rgb : Rgb)
    → c ≡ some rgb
    → (is_some a && is_some b && is_some d) ≡ true
    → (after : Window) × (painted snap ui c a b d ≡ some after)
painted-some snap ui (some c) (some x) (some y) (some z) rgb e h = (_, refl)
painted-some snap ui none a b d rgb e h = cc
painted-some snap ui (some c) none b d rgb e h = cc
painted-some snap ui (some c) (some x) none d rgb e h = cc
painted-some snap ui (some c) (some x) (some y) none rgb e h = cc

apply_snapshot-some :
    (snap : Snapshot) (ui : Window)
    → draws snap ≡ true
    → (after : Window) × (apply_snapshot snap ui ≡ some after)
unfolding apply_snapshot draws
apply_snapshot-some snap ui h = painted-some snap ui _ _ _ _ _ (profile_rgb-led snap.profile) h

update_tray-shows :
    (snap : Snapshot) (t : Option TrayHandle)
    → IsSettled t
    → IsSettled (update_tray snap t) × TrayShows (update_tray snap t) snap
unfolding update_tray
update_tray-shows snap none h = (tt, tt)
update_tray-shows snap (some t) h = let u = update-shows snap t h in (u.0 ∙ sym u.1, u.0)

-- What a list of events does to a settled screen: it does not panic, and the screen stays settled.
abbrev Reaches : List Event → Screen → (Screen → Type 0) → Type 0
Reaches events g P = (g' : Screen) × (pump_all events g ≡ some g') × IsSettled g'.tray × P g'

snapshot-Reaches :
    (snap : Snapshot) (g : Screen)
    → draws snap ≡ true
    → IsSettled g.tray
    → Reaches (Event.snapshot snap ∷ []) g (λ g'. Shows g' snap)
unfolding pump_all pump
snapshot-Reaches snap g h s =
    let (after, e) = apply_snapshot-some snap g.window h in
    let (settled, shown) = update_tray-shows snap g.tray s in
    (
      record { window = after; tray = update_tray snap g.tray },
      rw e refl,
      settled,
      record { before = g.window; window = e; tray = shown },
    )

pump_all-++ :
    (xs ys : List Event) (g : Screen)
    → pump_all (xs ++ ys) g ≡ and_then (pump_all xs g) (pump_all ys)
unfolding pump_all
pump_all-++ [] ys g = refl
pump_all-++ (x ∷ xs) ys g = elim (Option-cases (pump x g)) [
  | inl e ↦ rw e refl
  | inr (g', e) ↦ rw e (pump_all-++ xs ys g')
]

-- One list of events after another.
Reaches-++ :
    (xs ys : List Event) (g : Screen) (P Q : Screen → Type 0)
    → Reaches xs g P
    → ((g' : Screen) → IsSettled g'.tray → P g' → Reaches ys g' Q)
    → Reaches (xs ++ ys) g Q
Reaches-++ xs ys g P Q (g', e, s, p) next =
    let (g'', e', s', q) = next g' s p in (g'', pump_all-++ xs ys g ∙ rw e e', s', q)

toasts-Reaches :
    (m : Option String) (g : Screen) → IsSettled g.tray → Reaches (toasts m) g (λ g'. Unit)
unfolding pump_all pump
toasts-Reaches none g s = (g, refl, s, tt)
toasts-Reaches (some msg) g s = (_, refl, s, tt)

module _ (S : Server) (J : Json) where
  open S use {World}

  -- Whether the last change that the task can know of was followed by a report.
  abbrev pub current : Bool → Bool → List (Input S J) → Bool
  current subscribed known [] = known
  current subscribed known (request r ∷ rest) = current subscribed true rest
  current true known (signal ∷ rest) = current true true rest
  current false known (signal ∷ rest) = current false known rest
  current subscribed known (elsewhere f ∷ rest) = current subscribed false rest

  module _ (view : World → Snapshot)
      (reads : (w : World) → Snapshot.snapshot S J w ≡ ok (view w)) where
    -- The sliders can be drawn in every world that the run goes through.
    abbrev pub always_draws : Bool → List (Input S J) → World → Bool
    always_draws subscribed [] w = draws (view w)
    always_draws subscribed (i ∷ rest) w =
        draws (view w) && always_draws subscribed rest (turn S J subscribed i w).1

    always_draws-here :
        (subscribed : Bool) (inputs : List (Input S J)) (w : World)
        → always_draws subscribed inputs w ≡ true
        → draws (view w) ≡ true
    always_draws-here subscribed [] w h = h
    always_draws-here subscribed (i ∷ rest) w h = ground arith

    always_draws-next :
        (subscribed : Bool) (i : Input S J) (rest : List (Input S J)) (w : World)
        → always_draws subscribed (i ∷ rest) w ≡ true
        → always_draws subscribed rest (turn S J subscribed i w).1 ≡ true
    always_draws-next subscribed i rest w h = ground arith

    refresh-Reaches :
        (w : World) (g : Screen)
        → draws (view w) ≡ true
        → IsSettled g.tray
        → Reaches (refresh S J w ∷ []) g (λ g'. Shows g' (view w))
    unfolding refresh
    refresh-Reaches w g h s = rw (reads w) (snapshot-Reaches (view w) g h s)

    abbrev Knows : Bool → World → Screen → Type 0
    Knows known w g = known ≡ true → Shows g (view w)

    turns-Reaches :
        (subscribed known : Bool) (inputs : List (Input S J)) (w : World) (g : Screen)
        → always_draws subscribed inputs w ≡ true
        → IsSettled g.tray
        → Knows known w g
        → Reaches
            (turns S J subscribed inputs w).0
            g
            (Knows (current subscribed known inputs) (turns S J subscribed inputs w).1)
    unfolding turns turn pump_all
    turns-Reaches subscribed known [] w g h s k = (g, refl, s, k)
    turns-Reaches subscribed known (request r ∷ rest) w g h s k =
        let after = (Snapshot.apply S r w).1 in
        let next = always_draws-next subscribed (request r) rest w h in
        Reaches-++ (toasts (Snapshot.apply S r w).0 ++ refresh S J after ∷ [])
          (turns S J subscribed rest after).0 g _ _
          (Reaches-++ (toasts (Snapshot.apply S r w).0) (refresh S J after ∷ []) g _ _
            (toasts-Reaches (Snapshot.apply S r w).0 g s)
            (λ g' s' u. refresh-Reaches after g' (always_draws-here subscribed rest after next) s'))
          (λ g' s' shows. turns-Reaches subscribed true rest after g' next s' (λ e. shows))
    turns-Reaches true known (signal ∷ rest) w g h s k =
        let next = always_draws-next true signal rest w h in
        Reaches-++ (refresh S J w ∷ []) (turns S J true rest w).0 g _ _
          (refresh-Reaches w g (always_draws-here true rest w next) s)
          (λ g' s' shows. turns-Reaches true true rest w g' next s' (λ e. shows))
    turns-Reaches false known (signal ∷ rest) w g h s k =
        turns-Reaches false known rest w g (always_draws-next false signal rest w h) s k
    turns-Reaches subscribed known (elsewhere f ∷ rest) w g h s k =
        turns-Reaches subscribed false rest (f w) g
          (always_draws-next subscribed (elsewhere f) rest w h) s (λ e. cc)

    -- Where the daemon answers and the sliders can be drawn throughout, the window does not panic
    -- over a run of the client from a settled screen, and if the last change was followed by a
    -- request or by a signal that the task gets, the window and the tray show the daemon as it is
    -- at the end.
    pub bus_task-Shows :
        (subscribed : Bool) (inputs : List (Input S J)) (w : World) (g : Screen)
        → always_draws subscribed inputs w ≡ true
        → IsSettled g.tray
        → (g' : Screen) × (pump_all (bus_task S J (ok tt) subscribed inputs w).0 g ≡ some g')
          × IsSettled g'.tray
          × (current subscribed true inputs ≡ true
              → Shows g' (view (bus_task S J (ok tt) subscribed inputs w).1))
    unfolding bus_task
    bus_task-Shows subscribed inputs w g h s =
        Reaches-++ (refresh S J w ∷ []) (turns S J subscribed inputs w).0 g _ _
          (refresh-Reaches w g (always_draws-here subscribed inputs w h) s)
          (λ g' s' shows. turns-Reaches subscribed true inputs w g' h s' (λ e. shows))
