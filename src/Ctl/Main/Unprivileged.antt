-- ===== src/Ctl/Main/Unprivileged.antt =====
-- A run without the daemon by a user whose writes the kernel refuses.
use legion_linux_toolkit_rus.Prelude.{
  ℕ, String, Bool, false, Option, none, some, List, [], ◌≡◌, refl, ltb, Bool-cases, inl, inr,
}
use legion_linux_toolkit_rus.Prelude.Float.{Floats}
use legion_linux_toolkit_rus.Prelude.Result.{Result, ok, err, unwrap_or}
use legion_linux_toolkit_rus.Bus.{ZbusError, Answers}
use legion_linux_toolkit_rus.Hw.Error.{IoError, HwError, HwResult, Message, from_io}
use legion_linux_toolkit_rus.Hw.Sysfs.{Sysfs, Kernel, Action, write}
use legion_linux_toolkit_rus.Hw.Profile
use legion_linux_toolkit_rus.Hw.Profile.{PowerProfile}
use legion_linux_toolkit_rus.Hw.Battery
use legion_linux_toolkit_rus.Hw.Battery.{ChargeMode}
use legion_linux_toolkit_rus.Hw.Ideapad
use legion_linux_toolkit_rus.Hw.Ideapad.{Toggle}
use legion_linux_toolkit_rus.Hw.Cpu
use legion_linux_toolkit_rus.Hw.KbdBacklight
use legion_linux_toolkit_rus.Daemon.Iface.{Call}
use legion_linux_toolkit_rus.Ctl.Backend.{
  Proxy, direct, try_daemon, connect, change, describe_hw_error,
}
use legion_linux_toolkit_rus.Ctl.Commands.{
  ToggleKind, Printed, parse_on_off, dbus_method, hw_toggle, set_direct, then_print,
}
use legion_linux_toolkit_rus.Ctl.Commands
use legion_linux_toolkit_rus.Ctl.Commands.Agreement.{
  Setting, profile_to, battery_to, toggle_to, backlight_to,
}
use legion_linux_toolkit_rus.Ctl.Main.{Outcome, printed, dispatch, main, finish}
use legion_linux_toolkit_rus.Ctl.Main.Ends.{command_of}

-- An operation that fails and leaves the files.
abbrev FailsAt : Action → Sysfs → Type 0
FailsAt a root = (x : HwError) × (a root ≡ (err x, root))

-- A run that fails, prints nothing to the standard output and leaves the world.
pub record Fails {A : Type 0} (w : A) (r : Outcome × A) : Type 0 where
  pub stdout : r.0.stdout ≡ []
  pub success : r.0.success ≡ false
  pub left : r.1 ≡ w

module _ (K : Kernel) (e : IoError)
    (refuses : (root : Sysfs) (rel value : String) → K root rel value ≡ (err e, root)) where
  FailsAt-write : (rel value : String) (root : Sysfs) → FailsAt (write K rel value) root
  unfolding write
  FailsAt-write rel value root = elim (Bool-cases (root.has_path rel)) [
    | inl b ↦ rw (b, refuses root rel value) (from_io e, refl)
    | inr b ↦ rw b (HwError.not_supported, refl)
  ]

  FailsAt-at_file :
      (value : String) (file : Option String) (root : Sysfs)
      → FailsAt (Profile.at_file K value file) root
  FailsAt-at_file value none root = (HwError.not_supported, refl)
  FailsAt-at_file value (some file) root = FailsAt-write file value root

  FailsAt-profile : (p : PowerProfile) (root : Sysfs) → FailsAt (Profile.set K p) root
  unfolding Profile.set
  FailsAt-profile p root = FailsAt-at_file (Profile.as_sysfs p) (Profile.profile_file root) root

  FailsAt-battery : (m : ChargeMode) (root : Sysfs) → FailsAt (Battery.set_mode K m) root
  unfolding Battery.set_mode
  FailsAt-battery m root = FailsAt-write _ (Battery.as_sysfs m) root

  FailsAt-switch : (t : Option Toggle) (on : Bool) (root : Sysfs) → FailsAt (set_direct K t on) root
  unfolding Ideapad.set Cpu.set_boost
  FailsAt-switch (some t) on root = FailsAt-write _ _ root
  FailsAt-switch none on root = FailsAt-write _ _ root

  FailsAt-within :
      (level : ℕ) (most : HwResult ℕ) (root : Sysfs)
      → FailsAt (KbdBacklight.set_within K level most) root
  FailsAt-within level (err x) root = (x, refl)
  FailsAt-within level (ok most) root = elim (Bool-cases (ltb most level)) [
    | inl b ↦ rw b (_, refl)
    | inr b ↦ rw b (FailsAt-write _ _ root)
  ]

  FailsAt-backlight : (level : ℕ) (root : Sysfs) → FailsAt (KbdBacklight.set K level) root
  unfolding KbdBacklight.set
  FailsAt-backlight level root = FailsAt-within level (KbdBacklight.max root) root

  module _ (P : Proxy) (w : P.World) (keeps : P.set_files (P.files w) w ≡ w) where
    -- A command that fails and leaves the world.
    abbrev Lost : Printed × P.World → Type 0
    Lost r = (m : Message) × (r ≡ (err m, w))

    Lost-change :
        (line : Message) (c : Call) (a : Action)
        → FailsAt a (P.files w)
        → Lost (then_print P K line (change P direct c a w))
    unfolding change
    Lost-change line c a (x, h) = (describe_hw_error x, rw (h, keeps) refl)

    Lost-profile : (r : HwResult PowerProfile) → Lost (Commands.set_parsed_profile P K direct r w)
    Lost-profile (err x) = (_, refl)
    Lost-profile (ok p) = Lost-change _ _ (Profile.set K p) (FailsAt-profile p (P.files w))

    Lost-battery : (r : HwResult ChargeMode) → Lost (Commands.set_parsed_mode P K direct r w)
    Lost-battery (err x) = (_, refl)
    Lost-battery (ok m) = Lost-change _ _ (Battery.set_mode K m) (FailsAt-battery m (P.files w))

    Lost-toggle :
        (k : ToggleKind) (r : Result Message Bool)
        → Lost (Commands.set_parsed_toggle P K direct k r w)
    Lost-toggle k (err x) = (_, refl)
    Lost-toggle k (ok on) =
        Lost-change _ _ (set_direct K (hw_toggle k) on)
          (FailsAt-switch (hw_toggle k) on (P.files w))

    Lost-level : (most level : ℕ) → Lost (Commands.set_level P K direct most level w)
    Lost-level most level = elim (Bool-cases (ltb most level)) [
      | inl b ↦ rw b (_, refl)
      | inr b ↦
          rw b (Lost-change _ _ (KbdBacklight.set K level) (FailsAt-backlight level (P.files w)))
    ]

    Fails-printed : (r : Printed × P.World) → Lost r → Fails w (printed P r)
    unfolding finish
    Fails-printed r (m, h) = rw h (record { stdout = refl; success = refl; left = refl })

    module _ (F : Floats) (changes : List (Result ZbusError String)) where
      Fails-dispatch : (s : Setting) → Fails w (dispatch P F K direct changes (command_of s) w)
      unfolding dispatch Commands.profile Commands.battery Commands.toggle Commands.backlight
      Fails-dispatch (profile_to v) = Fails-printed _ (Lost-profile (Profile.from_user v))
      Fails-dispatch (battery_to v) = Fails-printed _ (Lost-battery (Battery.from_user v))
      Fails-dispatch (toggle_to ToggleKind.fn_lock v) =
          Fails-printed _ (Lost-toggle ToggleKind.fn_lock (parse_on_off v))
      Fails-dispatch (toggle_to ToggleKind.camera v) =
          Fails-printed _ (Lost-toggle ToggleKind.camera (parse_on_off v))
      Fails-dispatch (toggle_to ToggleKind.usb_charging v) =
          Fails-printed _ (Lost-toggle ToggleKind.usb_charging (parse_on_off v))
      Fails-dispatch (toggle_to ToggleKind.boost v) =
          Fails-printed _ (Lost-toggle ToggleKind.boost (parse_on_off v))
      Fails-dispatch (backlight_to n) =
          Fails-printed _ (Lost-level (unwrap_or 2 (KbdBacklight.max (P.files w))) n)

      -- Without the daemon, where the kernel refuses every write and leaves the files, as for a
      -- user who is not root, a run of the program that sets the profile, the charge mode, a switch
      -- or the backlight fails whatever the value, prints nothing to the standard output and
      -- changes nothing. Putting the same files back is taken to change nothing.
      pub main-Fails :
          (down : Answers) (s : Setting)
          → try_daemon down ≡ false
          → Fails w (main P F K down changes (command_of s) w)
      unfolding main connect
      main-Fails down s n =
          let f = Fails-dispatch s in
          rw n (record { stdout = f.stdout; success = f.success; left = f.left })
