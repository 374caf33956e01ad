-- ===== src/Gui/Client/Served.antt =====
-- The daemon as the other side of the window's proxy, which keeps the properties that it has read:
-- what the window and the tray show of it.
pub mod Choices
pub mod Changes
pub mod Others
pub mod Firmware
pub mod Resumed
pub mod Chosen
pub mod Switched
pub mod Selected
use legion_linux_toolkit_rus.Prelude.{
  String, Bool, true, false, Option, none, some, List, [], ◌∷◌, ◌++◌, ◌≡◌, refl, sym, ap, ◌∙◌, ◌==◌,
}
use legion_linux_toolkit_rus.Prelude.Float.{Floats}
use legion_linux_toolkit_rus.Prelude.Result.{ok, map_err}
use legion_linux_toolkit_rus.Bus.{ZbusError, Json, IsJson}
use legion_linux_toolkit_rus.Hw.Sysfs.{Sysfs}
use legion_linux_toolkit_rus.Hw.Detect
use legion_linux_toolkit_rus.Hw.Profile
use legion_linux_toolkit_rus.Hw.Battery
use legion_linux_toolkit_rus.Hw.Ideapad
use legion_linux_toolkit_rus.Hw.KbdBacklight
use legion_linux_toolkit_rus.Hw.Cpu
use legion_linux_toolkit_rus.Hw.FirmwareAttrs.{list_all}
use legion_linux_toolkit_rus.Daemon.Error.{DaemonError}
use legion_linux_toolkit_rus.Daemon.Iface.{Outside, Daemon, Signal}
use legion_linux_toolkit_rus.Daemon.Methods.{handle}
use legion_linux_toolkit_rus.Daemon.Property
use legion_linux_toolkit_rus.Daemon.Reports
use legion_linux_toolkit_rus.Gui.Slider.{SliderBounds, as_i32, find_bounds}
use legion_linux_toolkit_rus.Gui.Color.{Rgb, profile_rgb}
use legion_linux_toolkit_rus.Gui.Color.Components.{shown_rgb, profile_rgb-led}
use legion_linux_toolkit_rus.Gui.Labels
use legion_linux_toolkit_rus.Gui.Snapshot
use legion_linux_toolkit_rus.Gui.Snapshot.{Snapshot, Server}
use legion_linux_toolkit_rus.Gui.Tray.{TrayHandle, from_snapshot}
use legion_linux_toolkit_rus.Gui.Window.{Window, apply_snapshot, painted}
use legion_linux_toolkit_rus.Gui.Client.{Event, Screen, Input, turns, bus_task, pump_all}
use legion_linux_toolkit_rus.Gui.Client.Shown.{
  IsSettled, TrayShows, Shows, current, always_draws, bus_task-Shows,
}
use mathlib.Core.Option.{some-injective}

-- The window shows what a snapshot says: the profile under its LED's colour, the choices, the
-- switches that the machine has and how they stand, and the sliders of the limits.
pub record Displays (ui : Window) (snap : Snapshot) : Type 0 where
  pub connected : ui.daemon_connected ≡ true
  pub no_error : ui.daemon_error ≡ ""
  pub profile : ui.current_profile ≡ snap.profile
  pub color : ui.profile_color ≡ shown_rgb (Profile.from_sysfs snap.profile)
  pub custom : ui.custom_active ≡ (snap.profile == "custom")
  pub choices : ui.profile_choices ≡ snap.profile_choices
  pub battery_mode : ui.battery_mode ≡ snap.battery_mode
  pub fn_lock : ui.fn_lock ≡ snap.fn_lock
  pub has_fn_lock : ui.has_fn_lock ≡ snap.capabilities.fn_lock
  pub camera : ui.camera ≡ snap.camera
  pub has_camera : ui.has_camera ≡ snap.capabilities.camera_power
  pub usb_charging : ui.usb_charging ≡ snap.usb_charging
  pub has_usb_charging : ui.has_usb_charging ≡ snap.capabilities.usb_charging
  pub boost : ui.boost ≡ snap.boost
  pub has_boost : ui.has_boost ≡ snap.capabilities.cpu_boost
  pub backlight : ui.backlight ≡ as_i32 snap.backlight
  pub has_backlight : ui.has_backlight ≡ snap.capabilities.kbd_backlight
  pub spl : find_bounds snap.ppt "spl" ≡ some ui.spl
  pub sppt : find_bounds snap.ppt "sppt" ≡ some ui.sppt
  pub fppt : find_bounds snap.ppt "fppt" ≡ some ui.fppt

-- The window that is painted from a snapshot.
painted-Displays :
    (snap : Snapshot) (ui after : Window) (c : Option Rgb) (x y z : Option SliderBounds)
    → painted snap ui c x y z ≡ some after
    → c ≡ some (shown_rgb (Profile.from_sysfs snap.profile))
    → x ≡ find_bounds snap.ppt "spl"
    → y ≡ find_bounds snap.ppt "sppt"
    → z ≡ find_bounds snap.ppt "fppt"
    → Displays after snap
painted-Displays snap ui after (some c) (some x) (some y) (some z) h hc hx hy hz =
    let e = some-injective _ after h in
    record {
      connected = ap (λ w. w.daemon_connected) (sym e);
      no_error = ap (λ w. w.daemon_error) (sym e);
      profile = ap (λ w. w.current_profile) (sym e);
      color = ap (λ w. w.profile_color) (sym e) ∙ some-injective _ _ hc;
      custom = ap (λ w. w.custom_active) (sym e);
      choices = ap (λ w. w.profile_choices) (sym e);
      battery_mode = ap (λ w. w.battery_mode) (sym e);
      fn_lock = ap (λ w. w.fn_lock) (sym e);
      has_fn_lock = ap (λ w. w.has_fn_lock) (sym e);
      camera = ap (λ w. w.camera) (sym e);
      has_camera = ap (λ w. w.has_camera) (sym e);
      usb_charging = ap (λ w. w.usb_charging) (sym e);
      has_usb_charging = ap (λ w. w.has_usb_charging) (sym e);
      boost = ap (λ w. w.boost) (sym e);
      has_boost = ap (λ w. w.has_boost) (sym e);
      backlight = ap (λ w. w.backlight) (sym e);
      has_backlight = ap (λ w. w.has_backlight) (sym e);
      spl = sym hx ∙ ap (λ w. some w.spl) e;
      sppt = sym hy ∙ ap (λ w. some w.sppt) e;
      fppt = sym hz ∙ ap (λ w. some w.fppt) e;
    }
painted-Displays snap ui after none x y z h hc hx hy hz = cc
painted-Displays snap ui after (some c) none y z h hc hx hy hz = cc
painted-Displays snap ui after (some c) (some x) none z h hc hx hy hz = cc
painted-Displays snap ui after (some c) (some x) (some y) none h hc hx hy hz = cc

Shows-Displays : (snap : Snapshot) (g : Screen) → Shows g snap → Displays g.window snap
unfolding apply_snapshot
Shows-Displays snap g s =
    painted-Displays snap s.before g.window (profile_rgb snap.profile) _ _ _ s.window
      (profile_rgb-led snap.profile) refl refl refl

-- A snapshot in which the property that a signal announces is that of another one.
abbrev pub with_property : Signal → Snapshot → Snapshot → Snapshot
with_property Signal.profile now old = record old { profile = now.profile }
with_property Signal.battery_mode now old = record old { battery_mode = now.battery_mode }
with_property Signal.fn_lock now old = record old { fn_lock = now.fn_lock }
with_property Signal.camera_power now old = record old { camera = now.camera }
with_property Signal.usb_charging now old = record old { usb_charging = now.usb_charging }
with_property Signal.kbd_backlight now old = record old { backlight = now.backlight }
with_property Signal.cpu_boost now old = record old { boost = now.boost }

-- What a window reads after one signal of a daemon that it has read before: the property that the
-- signal announces and the limits, which are no property, as they are now, the rest as it was.
abbrev pub refreshed : Signal → Snapshot → Snapshot → Snapshot
refreshed s before now = record (with_property s now before) { ppt = now.ppt }

-- `zbus::Proxy`'s cache of the properties, which `Proxy::new` turns on: it is filled by the first
-- read, and a `PropertiesChanged` signal brings in the value of the property that it names.
pub record PropertyCache : Type 1 where
  pub Held : Type 0
  pub filled : Snapshot → Held
  pub received : Signal → Snapshot → Held → Held
  pub reads : Held → Snapshot

pub record IsCache (C : PropertyCache) : Type 0 where
  pub reads-filled : (now : Snapshot) → C.reads (C.filled now) ≡ now
  pub reads-received :
      (s : Signal) (now : Snapshot) (h : C.Held)
      → C.reads (C.received s now h) ≡ with_property s now (C.reads h)

-- The signals that a daemon has sent beyond those that it had sent before.
abbrev pub new_signals : List Signal → List Signal → List Signal
new_signals [] sent = sent
new_signals (x ∷ old) [] = []
new_signals (x ∷ old) (y ∷ sent) = new_signals old sent

pub new_signals-++ : (old sent : List Signal) → new_signals old (old ++ sent) ≡ sent
new_signals-++ [] sent = refl
new_signals-++ (x ∷ old) sent = new_signals-++ old sent

module _ (F : Floats) where
  -- What the properties and the limits of the daemon are.
  unfoldable pub view : Daemon → Snapshot
  unfolding Property.profile Property.profile_choices Property.battery_mode Property.fn_lock
      Property.camera_power Property.usb_charging Property.kbd_backlight Property.cpu_boost
      Detect.probe list_all Reports.version
  view d = record {
    profile = Property.profile d.root;
    profile_choices = Property.profile_choices d.root;
    battery_mode = Property.battery_mode d.root;
    fn_lock = Property.fn_lock d.root;
    camera = Property.camera_power d.root;
    usb_charging = Property.usb_charging d.root;
    backlight = Property.kbd_backlight d.root;
    boost = Property.cpu_boost d.root;
    capabilities = Detect.probe F d.root;
    ppt = list_all d.root;
    daemon_version = Reports.version;
  }

module _ (C : PropertyCache) where
  -- The daemon, and what the window's proxy holds of it.
  pub record Client : Type 0 where
    pub daemon : Daemon
    pub held : C.Held

  abbrev pub take_in : List Signal → Snapshot → C.Held → C.Held
  take_in [] now h = h
  take_in (s ∷ rest) now h = take_in rest now (C.received s now h)

  module _ (F : Floats) where
    -- The proxy once the first property is read.
    abbrev pub opened : Daemon → Client
    opened d = record { daemon = d; held = C.filled (view F d) }

    -- The daemon goes on, and the cache takes in the signals that it has sent by that.
    abbrev pub follow : Daemon → Client → Client
    follow after w = record {
      daemon = after;
      held = take_in (new_signals w.daemon.signals after.signals) (view F after) w.held;
    }

    -- What a snapshot over the proxy is: the limits come by a method call.
    abbrev pub seen : Client → Snapshot
    seen w = record (C.reads w.held) { ppt = list_all w.daemon.root }

    -- After one signal the proxy reads as the daemon is now in that property and as it was before
    -- in the others.
    pub seen-follow :
        (A : IsCache C) (d after : Daemon) (s : Signal)
        → after.signals ≡ d.signals ++ s ∷ []
        → seen (follow after (opened d)) ≡ refreshed s (view F d) (view F after)
    unfolding view
    seen-follow A d after s sent =
        ap
          (λ (l : List Signal). record (C.reads (take_in l (view F after) (C.filled (view F d)))) {
            ppt = list_all after.root;
          })
          (ap (new_signals d.signals) sent ∙ new_signals-++ d.signals (s ∷ []))
        ∙ ap (λ (x : Snapshot). record x { ppt = list_all after.root })
            (A.reads-received s (view F after) (C.filled (view F d))
              ∙ ap (with_property s (view F after)) (A.reads-filled (view F d)))

    module _ (J : Json) (W : Outside) (hdr : W.bus.Header) (to_zbus : DaemonError → ZbusError)
        (display : ZbusError → String) where
      -- `hdr` is the header of the window's calls.
      abbrev pub served : Server
      served = record {
        World = Client;
        capabilities =
            λ w. ok (Reports.text_or_empty (J.capabilities_to_json (C.reads w.held).capabilities));
        get_ppt = λ w. map_err to_zbus (Reports.get_ppt J w.daemon.root);
        profile = λ w. ok (C.reads w.held).profile;
        profile_choices = λ w. ok (C.reads w.held).profile_choices;
        battery_mode = λ w. ok (C.reads w.held).battery_mode;
        fn_lock = λ w. ok (C.reads w.held).fn_lock;
        camera_power = λ w. ok (C.reads w.held).camera;
        usb_charging = λ w. ok (C.reads w.held).usb_charging;
        kbd_backlight = λ w. ok (C.reads w.held).backlight;
        cpu_boost = λ w. ok (C.reads w.held).boost;
        version = λ w. ok (C.reads w.held).daemon_version;
        call_method =
            λ c w. let (r, after) = handle W c hdr w.daemon in (map_err to_zbus r, follow after w);
        display = display;
      }

      pub served-reads : (I : IsJson J) (w : Client) → Snapshot.snapshot served J w ≡ ok (seen w)
      unfolding Snapshot.snapshot Reports.get_ppt
      served-reads I w =
          let c = I.capabilities_text (C.reads w.held).capabilities in
          let l = I.attrs_text (list_all w.daemon.root) in rw (c.1, c.2, l.1, l.2) refl

      -- Over a run of the client against the daemon, in which the sliders can be drawn throughout
      -- and the last change was followed by a request or by a signal that the task gets, the window
      -- does not panic and at the end displays what its proxy holds and the limits of the files,
      -- and the tray shows the same. JSON texts are taken to read back.
      pub bus_task-Displays :
          (I : IsJson J) (subscribed : Bool) (inputs : List (Input served J)) (w : Client)
          (g : Screen)
          → always_draws served J seen (served-reads I) subscribed inputs w ≡ true
          → current served J subscribed true inputs ≡ true
          → IsSettled g.tray
          → (g' : Screen) × (pump_all (bus_task served J (ok tt) subscribed inputs w).0 g ≡ some g')
            × Displays g'.window (seen (bus_task served J (ok tt) subscribed inputs w).1)
            × TrayShows g'.tray (seen (bus_task served J (ok tt) subscribed inputs w).1)
      bus_task-Displays I subscribed inputs w g h c s =
          let (g', e, settled, shows) =
            bus_task-Shows served J seen (served-reads I) subscribed inputs w g h s in
          (g', e, Shows-Displays _ g' (shows c), (shows c).tray)
