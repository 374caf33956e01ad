-- ===== src/Ctl/Commands/Agreement.antt =====
-- The two ways of the command line against each other: the daemon as the other side of the proxy.
use legion_linux_toolkit_rus.Prelude.{
  ℕ, String, Bool, some, List, [], ◌∷◌, ◌≡◌, refl, arith, ltb, Bool-cases, inl, inr,
}
use legion_linux_toolkit_rus.Prelude.Result.{
  Result, ok, err, map_err, to_option, unwrap_or, Result-cases,
}
use legion_linux_toolkit_rus.Bus.{ZbusError, other, Json}
use legion_linux_toolkit_rus.Hw.Error.{HwResult, Message, plain}
use legion_linux_toolkit_rus.Hw.Sysfs.{Kernel, Action}
use legion_linux_toolkit_rus.Hw.Profile
use legion_linux_toolkit_rus.Hw.Profile.{PowerProfile}
use legion_linux_toolkit_rus.Hw.Profile.Names.{from_user-as_sysfs}
use legion_linux_toolkit_rus.Hw.Battery
use legion_linux_toolkit_rus.Hw.Battery.{ChargeMode}
use legion_linux_toolkit_rus.Hw.Battery.Names.{from_user-as_sysfs_mode}
use legion_linux_toolkit_rus.Hw.KbdBacklight
use legion_linux_toolkit_rus.Daemon.Error.{DaemonError}
use legion_linux_toolkit_rus.Daemon.Auth.{check}
use legion_linux_toolkit_rus.Daemon.Iface.{Signal, Outside, Daemon, Call}
use legion_linux_toolkit_rus.Daemon.Methods.{handle, authorize, persist, emit}
use legion_linux_toolkit_rus.Daemon.Property
use legion_linux_toolkit_rus.Daemon.Reports
use legion_linux_toolkit_rus.Ctl.Backend.{Proxy, Backend, daemon, direct, change}
use legion_linux_toolkit_rus.Ctl.Commands.{
  ToggleKind, fn_lock, camera, usb_charging, boost, parse_on_off, dbus_method, hw_toggle,
  set_direct, then_print, Printed, profile, battery, toggle, backlight,
}

abbrev string_property : Signal → Daemon → Result ZbusError String
string_property Signal.profile d = ok (Property.profile d.root)
string_property Signal.battery_mode d = ok (Property.battery_mode d.root)
string_property _ d = err (other "not a text")

abbrev bool_property : Signal → Daemon → Result ZbusError Bool
bool_property Signal.fn_lock d = ok (Property.fn_lock d.root)
bool_property Signal.camera_power d = ok (Property.camera_power d.root)
bool_property Signal.usb_charging d = ok (Property.usb_charging d.root)
bool_property Signal.cpu_boost d = ok (Property.cpu_boost d.root)
bool_property _ d = err (other "not a switch")

abbrev u32_property : Signal → Daemon → Result ZbusError ℕ
u32_property Signal.kbd_backlight d = ok (Property.kbd_backlight d.root)
u32_property _ d = err (other "not a number")

module _ (J : Json) (W : Outside) (hdr : W.bus.Header) (to_zbus : DaemonError → ZbusError) where
  abbrev pub served : Proxy
  served = record {
    World = Daemon;
    files = λ d. d.root;
    set_files = λ root d. record d { root = root };
    get_string = string_property;
    get_bool = bool_property;
    get_u32 = u32_property;
    get_ppt = λ d. map_err to_zbus (Reports.get_ppt J d.root);
    json = J;
    json_error = λ t. plain t ∷ [];
    call_method = λ c d. let (r, after) = handle W c hdr d in (map_err to_zbus r, after);
  }

-- A command that sets something in any profile.
pub data Setting : Type 0 where
  profile_to battery_to : String → Setting
  toggle_to : ToggleKind → String → Setting
  backlight_to : ℕ → Setting

-- The command, where the program itself writes through a kernel of its own.
abbrev pub set_by :
    (J : Json) (W : Outside) (hdr : W.bus.Header) (to_zbus : DaemonError → ZbusError)
    → Kernel
    → Backend
    → Setting
    → Daemon
    → Printed × Daemon
set_by J W hdr z K b (profile_to v) = profile (served J W hdr z) K b (some v)
set_by J W hdr z K b (battery_to v) = battery (served J W hdr z) K b (some v)
set_by J W hdr z K b (toggle_to k v) = toggle (served J W hdr z) K b k (some v)
set_by J W hdr z K b (backlight_to n) = backlight (served J W hdr z) K b (some n)

-- Two outcomes print the same lines, or both fail, and leave the same files.
pub record Agree (x y : Printed × Daemon) : Type 0 where
  pub lines : to_option x.0 ≡ to_option y.0
  pub files : x.1.root ≡ y.1.root

module _ (J : Json) (W : Outside) (hdr : W.bus.Header) (z : DaemonError → ZbusError) (d : Daemon)
    (allowed : check W.bus d.authorizer hdr ≡ ok tt)
    (sends : (l : List Signal) (s : Signal) → W.send l s ≡ ok tt) where
  -- The call does to the files what the write does, and succeeds where that does.
  abbrev Does : Call → Action → Type 0
  Does c a =
      (to_option (handle W c hdr d).0 ≡ to_option (a d.root).0)
      × ((handle W c hdr d).1.root ≡ (a d.root).1)

  Does-profile :
      (p : PowerProfile) → Does (Call.set_profile (Profile.as_sysfs p)) (Profile.set W.kernel p)
  unfolding handle authorize persist emit
  Does-profile p = ground (arith, from_user-as_sysfs p, sends d.signals Signal.profile)

  Does-battery :
      (m : ChargeMode)
      → Does (Call.set_battery_mode (Battery.as_sysfs m)) (Battery.set_mode W.kernel m)
  unfolding handle authorize persist emit
  Does-battery m = ground (arith, from_user-as_sysfs_mode m, sends d.signals Signal.battery_mode)

  Does-toggle :
      (k : ToggleKind) (on : Bool) → Does (dbus_method k on) (set_direct W.kernel (hw_toggle k) on)
  unfolding handle authorize persist emit dbus_method hw_toggle
  Does-toggle fn_lock on = ground (arith, sends d.signals Signal.fn_lock)
  Does-toggle camera on = ground (arith, sends d.signals Signal.camera_power)
  Does-toggle usb_charging on = ground (arith, sends d.signals Signal.usb_charging)
  Does-toggle boost on = ground (arith, sends d.signals Signal.cpu_boost)

  Does-backlight : (n : ℕ) → Does (Call.set_kbd_backlight n) (KbdBacklight.set W.kernel n)
  unfolding handle authorize persist emit
  Does-backlight n = ground (arith, sends d.signals Signal.kbd_backlight)

  Agree-change :
      (line : Message) (c : Call) (a : Action)
      → Does c a
      → Agree
          (then_print (served J W hdr z) W.kernel line (change (served J W hdr z) daemon c a d))
          (then_print (served J W hdr z) W.kernel line (change (served J W hdr z) direct c a d))
  unfolding change
  Agree-change line c a h = elim (Result-cases (handle W c hdr d).0) [
    | inl (u, r) ↦ elim (Result-cases (a d.root).0) [
      | inl (v, q) ↦ record { lines = rw (r, q) refl; files = rw (r, q) h.1 }
      | inr (e, q) ↦ cc (rw (r, q) at h.0)
    ]
    | inr (e, r) ↦ elim (Result-cases (a d.root).0) [
      | inl (v, q) ↦ cc (rw (r, q) at h.0)
      | inr (x, q) ↦ record { lines = rw (r, q) refl; files = rw (r, q) h.1 }
    ]
  ]

  abbrev Agreed : Setting → Type 0
  Agreed s = Agree (set_by J W hdr z W.kernel daemon s d) (set_by J W hdr z W.kernel direct s d)

  Agree-profile :
      (v : String) (r : HwResult PowerProfile) → Profile.from_user v ≡ r → Agreed (profile_to v)
  unfolding profile
  Agree-profile v (err e) h = rw h (record { lines = refl; files = refl })
  Agree-profile v (ok p) h = rw h (
      Agree-change _ (Call.set_profile (Profile.as_sysfs p)) (Profile.set W.kernel p)
        (Does-profile p))

  Agree-battery :
      (v : String) (r : HwResult ChargeMode) → Battery.from_user v ≡ r → Agreed (battery_to v)
  unfolding battery
  Agree-battery v (err e) h = rw h (record { lines = refl; files = refl })
  Agree-battery v (ok m) h = rw h (
      Agree-change _ (Call.set_battery_mode (Battery.as_sysfs m)) (Battery.set_mode W.kernel m)
        (Does-battery m))

  Agree-toggle :
      (k : ToggleKind) (v : String) (r : Result Message Bool)
      → parse_on_off v ≡ r
      → Agreed (toggle_to k v)
  unfolding toggle
  Agree-toggle k v (err e) h = rw h (record { lines = refl; files = refl })
  Agree-toggle k v (ok on) h =
      rw h (
        Agree-change _ (dbus_method k on) (set_direct W.kernel (hw_toggle k) on) (Does-toggle k on))

  Agree-backlight : (n : ℕ) → Agreed (backlight_to n)
  unfolding backlight
  Agree-backlight n = elim (Bool-cases (ltb (unwrap_or 2 (KbdBacklight.max d.root)) n)) [
    | inl b ↦ rw b (record { lines = refl; files = refl })
    | inr b ↦
        rw b (
          Agree-change _ (Call.set_kbd_backlight n) (KbdBacklight.set W.kernel n)
            (Does-backlight n))
  ]

  -- For a caller whom the daemon allows, a bus that takes the signals, and a program whose own writes
  -- the kernel answers as those of the daemon, a command that sets the profile, the charge mode, a
  -- switch or the backlight prints the same lines and leaves the same files over the daemon as
  -- straight to the files, or fails both ways.
  pub daemon-direct :
      (s : Setting)
      → Agree (set_by J W hdr z W.kernel daemon s d) (set_by J W hdr z W.kernel direct s d)
  daemon-direct (profile_to v) = Agree-profile v (Profile.from_user v) refl
  daemon-direct (battery_to v) = Agree-battery v (Battery.from_user v) refl
  daemon-direct (toggle_to k v) = Agree-toggle k v (parse_on_off v) refl
  daemon-direct (backlight_to n) = Agree-backlight n
