-- ===== src/Tests/Resumed.antt =====
-- The end of a sleep on the machine, from logind to the window.
use legion_linux_toolkit_rus.Daemon.Main
use legion_linux_toolkit_rus.Daemon.Methods
use legion_linux_toolkit_rus.Gui.Client
use legion_linux_toolkit_rus.Gui.Client.Shown
use legion_linux_toolkit_rus.Hw.Battery
use legion_linux_toolkit_rus.Hw.FirmwareAttrs
use legion_linux_toolkit_rus.Hw.Sysfs
use legion_linux_toolkit_rus.Text
use legion_linux_toolkit_rus.Prelude.{true, some, ◌≡◌, refl}
use legion_linux_toolkit_rus.Prelude.Result.{ok}
use legion_linux_toolkit_rus.Text.{◌<>◌}
use legion_linux_toolkit_rus.Hw.Profile
use legion_linux_toolkit_rus.Gui.Slider
use legion_linux_toolkit_rus.Gui.Client.{Screen, bus_task, pump_all}
use legion_linux_toolkit_rus.Gui.Client.Shown.{TrayShows, always_draws}
use legion_linux_toolkit_rus.Gui.Client.Served.{
  view, opened, seen, refreshed, served-reads, Displays,
}
use legion_linux_toolkit_rus.Gui.Client.Served.Changes.{change}
use legion_linux_toolkit_rus.Gui.Client.Served.Resumed.{resume, resume-Displays}
use legion_linux_toolkit_rus.Daemon.Iface.{Daemon, Signal}
use legion_linux_toolkit_rus.Tests.Machine.{whole, device, keeping-IsAttribute}
use legion_linux_toolkit_rus.Tests.Host.{outside}
use legion_linux_toolkit_rus.Tests.Json.{json, json-IsJson}
use legion_linux_toolkit_rus.Tests.Screen.{cache, cache-IsCache, failed, text_of, server, screen}
use legion_linux_toolkit_rus.Tests.Daemon.{persisting, keeping-KeepsProfile}

abbrev resume_here : Daemon → Daemon
resume_here = resume cache whole json outside true failed text_of

resume_draws :
    always_draws server json
      (seen cache whole)
      (served-reads cache whole json outside true failed text_of json-IsJson)
      true
      (change cache whole json outside true failed text_of resume_here persisting)
      (opened cache whole persisting)
    ≡ true
unfolding Shown.draws Slider.find_bounds view Sysfs.read_parsed Text.parse_unsigned Text.trim
    Text.is_whitespace FirmwareAttrs.short_key Sysfs.read_parsed_opt Main.run
    Methods.notify_profile_changed Methods.emit Client.turn FirmwareAttrs.from_key
    FirmwareAttrs.write_attr Battery.from_sysfs Battery.set_mode Profile.set
resume_draws = refl

-- Balanced is persisted; the machine wakes up in Custom.
resumed_window_example :
    (g' : Screen) × (pump_all
        (bus_task server json
          (ok tt)
          true
          (change cache whole json outside true failed text_of resume_here persisting)
          (opened cache whole persisting)).0
        screen
      ≡ some g')
    × Displays g'.window
        (refreshed Signal.profile (view whole persisting) (view whole (resume_here persisting)))
    × TrayShows g'.tray
        (refreshed Signal.profile (view whole persisting) (view whole (resume_here persisting)))
    × (g'.window.current_profile ≡ "balanced")
unfolding Profile.set Profile.device_dir Profile.as_sysfs Text.trim Text.is_whitespace
resumed_window_example =
    resume-Displays cache whole json outside true failed text_of cache-IsCache json-IsJson
      keeping-KeepsProfile persisting device Profile.balanced screen refl
      (keeping-IsAttribute (device <> "/profile")) refl refl refl resume_draws refl
