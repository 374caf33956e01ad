-- ===== src/Tests/Client.antt =====
-- The theorems about the client of the window, on the daemon of the machine.
use legion_linux_toolkit_rus.Daemon.Auth
use legion_linux_toolkit_rus.Daemon.Methods
use legion_linux_toolkit_rus.Daemon.Watch
use legion_linux_toolkit_rus.Gui.Client
use legion_linux_toolkit_rus.Gui.Client.Shown
use legion_linux_toolkit_rus.Gui.Snapshot
use legion_linux_toolkit_rus.Hw.Cpu
use legion_linux_toolkit_rus.Hw.FirmwareAttrs
use legion_linux_toolkit_rus.Hw.Ideapad
use legion_linux_toolkit_rus.Hw.ProfileWatch
use legion_linux_toolkit_rus.Hw.Sysfs
use legion_linux_toolkit_rus.Text
use legion_linux_toolkit_rus.Prelude.{suc, true, false, some, List, [], ◌∷◌, ◌≡◌, refl}
use legion_linux_toolkit_rus.Prelude.Result.{ok}
use legion_linux_toolkit_rus.Hw.Profile
use legion_linux_toolkit_rus.Hw.Profile.{PowerProfile}
use legion_linux_toolkit_rus.Hw.FirmwareAttrs.{AttrInfo, in_range}
use legion_linux_toolkit_rus.Daemon.Iface.{Call, Signal}
use legion_linux_toolkit_rus.Daemon.Methods.{handle, set_profile}
use legion_linux_toolkit_rus.Gui.Slider
use legion_linux_toolkit_rus.Gui.Slider.{SliderBounds, pos, from_attr}
use legion_linux_toolkit_rus.Gui.Snapshot.{Request, Server}
use legion_linux_toolkit_rus.Gui.Window.{select_profile, wire_callbacks}
use legion_linux_toolkit_rus.Gui.Client.{
  Screen, Input, request, signal, elsewhere, turns, bus_task, pump_all,
}
use legion_linux_toolkit_rus.Gui.Client.Answered.{
  reports, messages, asked, failures, bus_task-answered,
}
use legion_linux_toolkit_rus.Gui.Client.Shown.{TrayShows, always_draws}
use legion_linux_toolkit_rus.Gui.Client.Served.{
  view, opened, follow, seen, refreshed, served-reads, Displays, bus_task-Displays,
}
use legion_linux_toolkit_rus.Gui.Client.Served.Others.{
  other_call, other_call-Displays, set_ppt-unseen,
}
use legion_linux_toolkit_rus.Gui.Client.Served.Selected.{select_profile-displayed}
use legion_linux_toolkit_rus.Hw.Ideapad.{toggle_file}
use legion_linux_toolkit_rus.Text.{◌<>◌}
use legion_linux_toolkit_rus.Hw.Sysfs.{Sysfs}
use legion_linux_toolkit_rus.Hw.ProfileWatch.{Reread}
use legion_linux_toolkit_rus.Daemon.Watch.{ProfileWatcher}
use legion_linux_toolkit_rus.Tests.Machine.{put, machine, whole, device, keeping-IsAttribute}
use legion_linux_toolkit_rus.Tests.Host.{outside, daemon}
use legion_linux_toolkit_rus.Tests.Json.{json, json-IsJson}
use legion_linux_toolkit_rus.Tests.Screen.{cache, cache-IsCache, failed, text_of, server, screen}

abbrev inputs : List (Input server json)
inputs =
    request (Request.set_cpu_boost false)
    ∷ elsewhere (λ w. follow cache whole (handle outside (Call.set_fn_lock true) true w.daemon).1 w)
    ∷ signal
    ∷ []

answered_example :
    (reports (bus_task server json (ok tt) true inputs (opened cache whole daemon)).0
      ≡ suc (asked server json true inputs))
    × (messages (bus_task server json (ok tt) true inputs (opened cache whole daemon)).0
        ≡ failures server json inputs (opened cache whole daemon))
answered_example = bus_task-answered server json true inputs (opened cache whole daemon)

inputs_draw :
    always_draws server json
      (seen cache whole)
      (served-reads cache whole json outside true failed text_of json-IsJson)
      true
      inputs
      (opened cache whole daemon)
    ≡ true
unfolding Shown.draws Slider.find_bounds view Sysfs.read_parsed Text.parse_unsigned Text.trim
    Text.is_whitespace FirmwareAttrs.short_key Sysfs.read_parsed_opt Client.turn handle
    Methods.authorize Auth.check Methods.persist Methods.emit Snapshot.apply Snapshot.to_call
    Cpu.set_boost Ideapad.set
inputs_draw = refl

selection_draws :
    always_draws server json
      (seen cache whole)
      (served-reads cache whole json outside true failed text_of json-IsJson)
      false
      (request (wire_callbacks (select_profile "Quiet")) ∷ [])
      (opened cache whole daemon)
    ≡ true
unfolding Shown.draws Slider.find_bounds view Sysfs.read_parsed Text.parse_unsigned Text.trim
    Text.is_whitespace FirmwareAttrs.short_key Sysfs.read_parsed_opt Client.turn handle
    Methods.authorize Auth.check Methods.persist Methods.emit Snapshot.apply Snapshot.to_call
    wire_callbacks set_profile Profile.from_user Profile.set Profile.device_dir
selection_draws = refl

client_run_example :
    (g' : Screen) × (pump_all
        (bus_task server json (ok tt) true inputs (opened cache whole daemon)).0
        screen
      ≡ some g')
    × Displays g'.window
        (seen cache whole (bus_task server json (ok tt) true inputs (opened cache whole daemon)).1)
    × TrayShows g'.tray
        (seen cache whole (bus_task server json (ok tt) true inputs (opened cache whole daemon)).1)
client_run_example =
    bus_task-Displays cache whole json outside true failed text_of json-IsJson true inputs
      (opened cache whole daemon) screen inputs_draw refl refl

selected_profile_example :
    (p : PowerProfile) × (g' : Screen) × (Profile.from_user "Quiet" ≡ ok p)
    × (pump_all
          (bus_task server json
            (ok tt)
            false
            (request (wire_callbacks (select_profile "Quiet")) ∷ [])
            (opened cache whole daemon)).0
          screen
        ≡ some g')
    × (g'.window.current_profile ≡ Profile.as_sysfs p)
unfolding Profile.device_dir Text.trim Text.is_whitespace set_profile Methods.authorize Auth.check
    Profile.from_user Profile.set Methods.persist Methods.emit
selected_profile_example =
    select_profile-displayed cache whole json outside true failed text_of cache-IsCache json-IsJson
      false "Quiet" device daemon screen refl
      (keeping-IsAttribute "sys/class/platform-profile/platform-profile-1/profile") refl
      selection_draws refl

other_call_example :
    (g' : Screen) × (pump_all
        (bus_task server json
          (ok tt)
          true
          (other_call cache whole json outside true failed text_of
            (Call.set_fn_lock true)
            true
            daemon)
          (opened cache whole daemon)).0
        screen
      ≡ some g')
    × Displays g'.window (
        refreshed Signal.fn_lock
          (view whole daemon)
          (view whole (handle outside (Call.set_fn_lock true) true daemon).1))
    × TrayShows g'.tray (
        refreshed Signal.fn_lock
          (view whole daemon)
          (view whole (handle outside (Call.set_fn_lock true) true daemon).1))
unfolding handle Methods.authorize Auth.check Ideapad.set Methods.emit Shown.draws
    Slider.find_bounds view Sysfs.read_parsed Text.parse_unsigned Text.trim Text.is_whitespace
    FirmwareAttrs.short_key Sysfs.read_parsed_opt Client.turn
other_call_example =
    other_call-Displays cache whole json outside true failed text_of cache-IsCache json-IsJson
      (Call.set_fn_lock true) Signal.fn_lock true daemon screen refl refl refl refl

unseen_example :
    (turns server json true
      (other_call cache whole json outside true failed text_of (Call.set_ppt "spl" 80) true daemon)
      (opened cache whole daemon)).0
    ≡ []
unseen_example =
    set_ppt-unseen cache whole json outside true failed text_of true "spl" 80 true daemon

-- The firmware goes from Custom to Quiet.
abbrev cooler : Sysfs
cooler = put machine (device <> "/profile") "low-power\n"

abbrev quiet_read : Reread
quiet_read = record { seek = ok tt; content = ok "low-power\n" }

abbrev watching : ProfileWatcher
watching = record { last = some Profile.custom }
