-- ===== src/Ctl/Main.antt =====
-- crates/legion-ctl/src/main.rs: the commands, how each is carried out, and how the program ends;
-- and the watch of crates/legion-ctl/src/commands.rs. clap, which parses the arguments, is left
-- out.
pub mod Ends
pub mod Unprivileged
pub mod Hint
use legion_linux_toolkit_rus.Prelude.{
  ℕ, String, Bool, true, false, Option, none, some, List, [], ◌∷◌, ◌++◌, if◌then◌else◌, map,
}
use legion_linux_toolkit_rus.Prelude.Float.{Floats}
use legion_linux_toolkit_rus.Prelude.Result.{Result, ok, err}
use legion_linux_toolkit_rus.Bus.{ZbusError, Answers}
use legion_linux_toolkit_rus.Hw.Error.{Message, plain}
use legion_linux_toolkit_rus.Hw.Sysfs.{Kernel}
use legion_linux_toolkit_rus.Daemon.Iface.{Signal}
use legion_linux_toolkit_rus.Ctl.Backend
use legion_linux_toolkit_rus.Ctl.Backend.{Proxy, Backend, daemon, direct, connect, describe_error}
use legion_linux_toolkit_rus.Ctl.Commands
use legion_linux_toolkit_rus.Ctl.Commands.{ToggleKind, Printed}
use legion_linux_toolkit_rus.Ctl.Status

pub data Command : Type 0 where
  status : Command
  profile : Option String → Bool → Command
  ppt : Option String → Option ℕ → Command
  battery fnlock camera usb_charging boost : Option String → Command
  backlight : Option ℕ → Command

-- What the program prints, and whether it exits with `ExitCode::SUCCESS`.
pub record Outcome : Type 0 where
  pub stdout : List Message
  pub stderr : List Message
  pub success : Bool

-- The end of `main`, for a command that printed some lines and returned a result.
unfoldable pub finish : List Message → Result Message (Unit {0}) → Outcome
finish lines (ok u) = record { stdout = lines; stderr = []; success = true }
finish lines (err msg) = record {
  stdout = lines;
  stderr = (plain "legion-ctl: " ∷ msg) ∷ [];
  success = false;
}

-- A command that fails has printed nothing.
abbrev pub finish_printed : Printed → Outcome
unfolding finish
finish_printed (ok lines) = finish lines (ok tt)
finish_printed (err msg) = finish [] (err msg)

abbrev pub changed : String → Message
changed v = plain "profile: " ∷ plain v ∷ []

-- The loop of `profile_watch` over the changes of the property, each as it is read.
unfoldable pub watch_lines :
    List (Result ZbusError String) → List Message × Result Message (Unit {0})
unfolding describe_error
watch_lines [] = ([], ok tt)
watch_lines (ok v ∷ rest) = let (lines, r) = watch_lines rest in (changed v ∷ lines, r)
watch_lines (err e ∷ rest) = ([], err (describe_error e))

module _ (P : Proxy) where
  open P use {World, get_string}

  abbrev watch_from :
      Result ZbusError String
      → List (Result ZbusError String)
      → List Message × Result Message (Unit {0})
  watch_from (ok current) changes =
      let (lines, r) = watch_lines changes in (changed current ∷ lines, r)
  watch_from (err e) changes = ([], err (describe_error e))

  -- `profile_watch`, given the changes to come.
  unfoldable pub profile_watch :
      Backend → List (Result ZbusError String) → World → List Message × Result Message (Unit {0})
  unfolding watch_lines describe_error
  profile_watch direct changes w = (
    [],
    err (plain "--watch needs the daemon: start it with 'systemctl enable --now legiond'" ∷ []),
  )
  profile_watch daemon changes w = watch_from (get_string Signal.profile w) changes

  abbrev pub printed : Printed × World → Outcome × World
  printed (r, w) = (finish_printed r, w)

  module _ (F : Floats) (K : Kernel) where
    -- The `match` on the command.
    unfoldable pub dispatch :
        Backend → List (Result ZbusError String) → Command → World → Outcome × World
    unfolding finish profile_watch Status.status Commands.profile Commands.ppt Commands.battery
        Commands.toggle Commands.backlight
    dispatch b changes status w = (finish (Status.status F P b w) (ok tt), w)
    dispatch b changes (profile value true) w =
        let (lines, r) = profile_watch b changes w in (finish lines r, w)
    dispatch b changes (profile value false) w = printed (Commands.profile P K b value w)
    dispatch b changes (ppt attr watts) w = printed (Commands.ppt P K b attr watts w)
    dispatch b changes (battery value) w = printed (Commands.battery P K b value w)
    dispatch b changes (fnlock value) w = printed (Commands.toggle P K b ToggleKind.fn_lock value w)
    dispatch b changes (camera value) w = printed (Commands.toggle P K b ToggleKind.camera value w)
    dispatch b changes (usb_charging value) w =
        printed (Commands.toggle P K b ToggleKind.usb_charging value w)
    dispatch b changes (backlight value) w = printed (Commands.backlight P K b value w)
    dispatch b changes (boost value) w = printed (Commands.toggle P K b ToggleKind.boost value w)

    abbrev pub hinted : List String → Outcome → Outcome
    hinted hints o = record o { stderr = map (λ h. plain h ∷ []) hints ++ o.stderr }

    -- `main`, from the answers of the bus on.
    unfoldable pub main :
        Answers → List (Result ZbusError String) → Command → World → Outcome × World
    unfolding dispatch connect
    main answers changes command w =
        let (b, hints) = connect answers in
        let (o, after) = dispatch b changes command w in (hinted hints o, after)
