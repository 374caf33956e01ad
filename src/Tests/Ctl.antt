-- ===== src/Tests/Ctl.antt =====
-- The theorems about the command line.
use legion_linux_toolkit_rus.Text
use legion_linux_toolkit_rus.Prelude.{
  String, true, false, none, some, List, [], ◌∷◌, ◌++◌, ◌≡◌, ◌⊎◌, refl,
}
use legion_linux_toolkit_rus.Prelude.Result.{ok, err}
use legion_linux_toolkit_rus.Text.{◌<>◌}
use legion_linux_toolkit_rus.Hw.Sysfs.{Kernel}
use legion_linux_toolkit_rus.Hw.Error.{IoError, ErrorKind, Message}
use legion_linux_toolkit_rus.Ctl.Main.Unprivileged.{Fails, main-Fails}
use legion_linux_toolkit_rus.Hw.Profile
use legion_linux_toolkit_rus.Daemon.Iface.{Daemon}
use legion_linux_toolkit_rus.Bus.{ZbusError, other, Answers}
use legion_linux_toolkit_rus.Daemon.Error.{DaemonError}
use legion_linux_toolkit_rus.Daemon.Auth.{check}
use legion_linux_toolkit_rus.Ctl.Backend
use legion_linux_toolkit_rus.Ctl.Backend.{Proxy, direct}
use legion_linux_toolkit_rus.Ctl.Commands.{ppt, described}
use legion_linux_toolkit_rus.Ctl.Commands.Agreement.{served, profile_to}
use legion_linux_toolkit_rus.Ctl.Commands.Limits.{IsRequested, ppt-guarded}
use legion_linux_toolkit_rus.Ctl.Status.{status, line}
use legion_linux_toolkit_rus.Ctl.Status.Agreement.{status-agrees}
use legion_linux_toolkit_rus.Ctl.Main.{main}
use legion_linux_toolkit_rus.Ctl.Main.Ends.{command_of, SameEnd, main-SameEnd}
use legion_linux_toolkit_rus.Tests.Machine.{whole, machine, device, put, keeping}
use legion_linux_toolkit_rus.Tests.Host.{outside, daemon}
use legion_linux_toolkit_rus.Tests.Json.{json, json-IsJson}

abbrev failed : DaemonError → ZbusError
failed e = other "the method failed"

abbrev proxy : Proxy
proxy = served json outside true failed

ppt_command_example :
    ((ppt proxy keeping direct (some "spl") (some 80) daemon).1 ≡ daemon)
    ⊎ IsRequested proxy keeping direct daemon
        (some "spl")
        (some 80)
        (ppt proxy keeping direct (some "spl") (some 80) daemon).1
ppt_command_example = ppt-guarded proxy keeping direct daemon (some "spl") (some 80)

-- What the bus answers with the daemon, and without it.
abbrev up : Answers
up = record { connection = ok tt; dbus = ok tt; name_has_owner = ok true; proxy = ok tt }

abbrev down : Answers
down = record { connection = ok tt; dbus = ok tt; name_has_owner = ok false; proxy = ok tt }

abbrev text_of : ZbusError → String
text_of e = "an error of the bus"

ends_example :
    SameEnd
      (main proxy whole keeping up [] (command_of (profile_to "Quiet")) daemon)
      (main proxy whole keeping down [] (command_of (profile_to "Quiet")) daemon)
unfolding Backend.try_daemon check
ends_example =
    main-SameEnd whole json outside true failed keeping [] up down (profile_to "Quiet") daemon refl
      refl refl refl (λ l s. refl)

-- A daemon whose device shows a profile that the kernel has and the program has not.
abbrev cooled : Daemon
cooled = record daemon { root = put machine (device <> "/profile") "cool\n" }

status_example :
    (first rest : List Message) × (status whole proxy Backend.daemon cooled
      ≡ first ++ line "daemon" "running" ∷ described "profile" "" "unknown" ∷ rest)
    × (status whole proxy direct cooled ≡ first ++ line "daemon" "not running" ∷ rest)
unfolding Profile.available Profile.get Text.trim Text.is_whitespace
status_example = status-agrees whole json json-IsJson outside true failed cooled

abbrev not_permitted : IoError
not_permitted = record {
  kind = ErrorKind.permission_denied;
  raw_os_error = none;
  message = "Permission denied";
}

-- A kernel that lets the program write nothing.
abbrev refusing : Kernel
refusing root rel v = (err not_permitted, root)

unprivileged_example :
    Fails daemon (main proxy whole refusing down [] (command_of (profile_to "Quiet")) daemon)
unfolding Backend.try_daemon
unprivileged_example =
    main-Fails refusing not_permitted (λ root rel v. refl) proxy daemon refl whole [] down
      (profile_to "Quiet") refl
