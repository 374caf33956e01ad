-- ===== src/Tests/Hints.antt =====
-- A power limit outside the Custom profile, over the daemon and without it.
use legion_linux_toolkit_rus.Ctl.Backend
use legion_linux_toolkit_rus.Daemon.Auth
use legion_linux_toolkit_rus.Hw.Error
use legion_linux_toolkit_rus.Hw.FirmwareAttrs
use legion_linux_toolkit_rus.Hw.Sysfs
use legion_linux_toolkit_rus.Text
use legion_linux_toolkit_rus.Prelude.{some, [], ◌∷◌, ◌≡◌, refl, true, false}
use legion_linux_toolkit_rus.Prelude.Result.{ok, err}
use legion_linux_toolkit_rus.Text.{◌<>◌}
use legion_linux_toolkit_rus.Bus.{ZbusError, method_error, other, Answers}
use legion_linux_toolkit_rus.Hw.Error.{IoError, ErrorKind, Errno, plain}
use legion_linux_toolkit_rus.Hw.Sysfs.{Kernel}
use legion_linux_toolkit_rus.Hw.Profile
use legion_linux_toolkit_rus.Daemon.Error.{DaemonError}
use legion_linux_toolkit_rus.Daemon.Iface.{Daemon}
use legion_linux_toolkit_rus.Ctl.Backend.{fallback_hint}
use legion_linux_toolkit_rus.Ctl.Commands.Agreement.{served}
use legion_linux_toolkit_rus.Ctl.Main.{Command, main}
use legion_linux_toolkit_rus.Ctl.Main.Hint.{IsNamed, refused, main-refused}
use legion_linux_toolkit_rus.Tests.Machine.{whole, machine, device, put}
use legion_linux_toolkit_rus.Tests.Host.{outside, daemon}
use legion_linux_toolkit_rus.Tests.Json.{json, json-IsJson}
use legion_linux_toolkit_rus.Tests.Daemon.{spl_info}

abbrev named : DaemonError → ZbusError
named (DaemonError.custom_mode_required m) =
    method_error "org.legiontoolkit.Error.CustomModeRequired" (some "the profile is another")
named e = other "another error"

named-IsNamed : IsNamed named
named-IsNamed = record { custom_mode_required = λ m. (some "the profile is another", refl) }

abbrev device_busy : IoError
device_busy = record {
  kind = ErrorKind.other;
  raw_os_error = some Errno.busy;
  message = "Device or resource busy";
}

-- A kernel that finds the device busy.
abbrev busy : Kernel
busy root rel v = (err device_busy, root)

abbrev quiet_here : Daemon
quiet_here = record daemon { root = put machine (device <> "/profile") "low-power\n" }

abbrev answered : Answers
answered = record { connection = ok tt; dbus = ok tt; name_has_owner = ok true; proxy = ok tt }

abbrev unowned : Answers
unowned = record answered { name_has_owner = ok false }

hint_example :
    (main
        (served json outside true named)
        whole
        busy
        answered
        []
        (Command.ppt (some "spl") (some 80))
        quiet_here
      ≡ (refused [], quiet_here))
    × (main
          (served json outside true named)
          whole
          busy
          unowned
          []
          (Command.ppt (some "spl") (some 80))
          quiet_here
        ≡ (refused ((plain fallback_hint ∷ []) ∷ []), quiet_here))
unfolding FirmwareAttrs.list_all Sysfs.read_parsed Text.parse_unsigned Text.trim Text.is_whitespace
    FirmwareAttrs.short_key FirmwareAttrs.from_key Sysfs.read_opt Sysfs.read_parsed_opt
    FirmwareAttrs.in_range Backend.try_daemon Auth.check Profile.get FirmwareAttrs.write_by_name
    Error.from_io
hint_example =
    main-refused whole json json-IsJson outside true named named-IsNamed busy [] quiet_here "spl" 80
      spl_info refl refl answered unowned Profile.quiet refl refl refl refl (λ e. cc) refl
