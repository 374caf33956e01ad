-- ===== src/Ctl/Main/Ends.antt =====
-- How the program ends over the daemon and without it, and what a watch prints.
use mathlib.Core.Option.{some-injective}
use mathlib.Core.Path.{subst}
use legion_linux_toolkit_rus.Prelude.{
  String, true, false, some, List, [], ◌∷◌, ◌++◌, ◌≡◌, refl, sym, map,
}
use legion_linux_toolkit_rus.Prelude.Float.{Floats}
use legion_linux_toolkit_rus.Prelude.Result.{Result, ok, err, to_option}
use legion_linux_toolkit_rus.Bus.{ZbusError, Json, Answers}
use legion_linux_toolkit_rus.Hw.Sysfs.{Kernel}
use legion_linux_toolkit_rus.Daemon.Error.{DaemonError}
use legion_linux_toolkit_rus.Daemon.Auth.{check}
use legion_linux_toolkit_rus.Daemon.Iface.{Outside, Daemon, Signal}
use legion_linux_toolkit_rus.Ctl.Backend.{
  Backend, daemon, direct, try_daemon, connect, describe_error,
}
use legion_linux_toolkit_rus.Ctl.Commands.{ToggleKind, Printed}
use legion_linux_toolkit_rus.Ctl.Commands.Agreement.{
  Setting, profile_to, battery_to, toggle_to, backlight_to, set_by, served, Agree, daemon-direct,
}
use legion_linux_toolkit_rus.Ctl.Main.{
  Command, Outcome, profile, battery, fnlock, camera, usb_charging, boost, backlight, finish,
  finish_printed, dispatch, main, changed, watch_lines,
}

-- The command of a setting.
abbrev pub command_of : Setting → Command
command_of (profile_to v) = profile (some v) false
command_of (battery_to v) = battery (some v)
command_of (toggle_to ToggleKind.fn_lock v) = fnlock (some v)
command_of (toggle_to ToggleKind.camera v) = camera (some v)
command_of (toggle_to ToggleKind.usb_charging v) = usb_charging (some v)
command_of (toggle_to ToggleKind.boost v) = boost (some v)
command_of (backlight_to n) = backlight (some n)

-- Two ends print the same to the standard output, both succeed or both fail, and leave the same
-- files.
pub record SameEnd (x y : Outcome × Daemon) : Type 0 where
  pub stdout : x.0.stdout ≡ y.0.stdout
  pub success : x.0.success ≡ y.0.success
  pub files : x.1.root ≡ y.1.root

finish-same :
    (a b : Printed)
    → to_option a ≡ to_option b
    → ((finish_printed a).stdout ≡ (finish_printed b).stdout)
      × ((finish_printed a).success ≡ (finish_printed b).success)
unfolding finish
finish-same (ok x) (ok y) h = (some-injective x y h, refl)
finish-same (err x) (err y) h = (refl, refl)
finish-same (ok x) (err y) h = cc
finish-same (err x) (ok y) h = cc

module _ (F : Floats) (J : Json) (W : Outside) (hdr : W.bus.Header) (z : DaemonError → ZbusError)
    (K : Kernel) (changes : List (Result ZbusError String)) where
  dispatch-setting :
      (b : Backend) (s : Setting) (d : Daemon)
      → dispatch (served J W hdr z) F K b changes (command_of s) d
        ≡ (finish_printed (set_by J W hdr z K b s d).0, (set_by J W hdr z K b s d).1)
  unfolding dispatch
  dispatch-setting b (profile_to v) d = refl
  dispatch-setting b (battery_to v) d = refl
  dispatch-setting b (toggle_to ToggleKind.fn_lock v) d = refl
  dispatch-setting b (toggle_to ToggleKind.camera v) d = refl
  dispatch-setting b (toggle_to ToggleKind.usb_charging v) d = refl
  dispatch-setting b (toggle_to ToggleKind.boost v) d = refl
  dispatch-setting b (backlight_to n) d = refl

  abbrev run : Answers → Setting → Daemon → Outcome × Daemon
  run answers s d = main (served J W hdr z) F K answers changes (command_of s) d

  same-end :
      (up down : Answers) (s : Setting) (d : Daemon)
      → try_daemon up ≡ true
      → try_daemon down ≡ false
      → Agree (set_by J W hdr z K daemon s d) (set_by J W hdr z K direct s d)
      → SameEnd (run up s d) (run down s d)
  unfolding main connect
  same-end up down s d u n a =
      let e = finish-same _ _ a.lines in
      rw (u, n, dispatch-setting daemon s d, dispatch-setting direct s d)
        (record { stdout = e.0; success = e.1; files = a.files })

  -- Where the program runs as root, so that the kernel answers its own writes as it answers those
  -- of the daemon, and for a caller whom the daemon allows and a bus that takes the signals, a run
  -- of the program that sets the profile, the charge mode, a switch or the backlight prints the
  -- same to the standard output, succeeds or fails the same and leaves the same files whether or
  -- not it finds the daemon.
  pub main-SameEnd :
      (up down : Answers) (s : Setting) (d : Daemon)
      → try_daemon up ≡ true
      → try_daemon down ≡ false
      → K ≡ W.kernel
      → check W.bus d.authorizer hdr ≡ ok tt
      → ((l : List Signal) (x : Signal) → W.send l x ≡ ok tt)
      → SameEnd
          (main (served J W hdr z) F K up changes (command_of s) d)
          (main (served J W hdr z) F K down changes (command_of s) d)
  main-SameEnd up down s d u n as_root allowed sends = same-end up down s d u n (
      subst (λ k. Agree (set_by J W hdr z k daemon s d) (set_by J W hdr z k direct s d))
        (sym as_root) (daemon-direct J W hdr z d allowed sends s))

-- A watch prints every profile that it reads, in order, until the first that it cannot read, and
-- succeeds exactly if there is none.
pub watch_lines-read :
    (values : List String) (e : ZbusError) (rest : List (Result ZbusError String))
    → (watch_lines (map ok values) ≡ (map changed values, ok tt))
      × (watch_lines (map ok values ++ err e ∷ rest) ≡ (map changed values, err (describe_error e)))
unfolding watch_lines
watch_lines-read [] e rest = (refl, refl)
watch_lines-read (v ∷ values) e rest =
    let ih = watch_lines-read values e rest in rw (ih.0, ih.1) (refl, refl)
