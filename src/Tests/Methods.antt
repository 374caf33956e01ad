-- ===== src/Tests/Methods.antt =====
-- The theorems about the methods on a daemon of the machine.
use legion_linux_toolkit_rus.Daemon.Methods
use legion_linux_toolkit_rus.Hw.FirmwareAttrs
use legion_linux_toolkit_rus.Hw.Ideapad
use legion_linux_toolkit_rus.Hw.Sysfs
use legion_linux_toolkit_rus.Text
use legion_linux_toolkit_rus.Prelude.{
  String, true, false, none, some, [], ◌∷◌, ◌++◌, ◌≡◌, ◌⊎◌, refl, ◌==◌, if◌then◌else◌,
}
use legion_linux_toolkit_rus.Prelude.Result.{ok, err}
use legion_linux_toolkit_rus.Text.{◌<>◌}
use legion_linux_toolkit_rus.Hw.Error.{HwError, plain, quoted}
use legion_linux_toolkit_rus.Hw.Profile
use legion_linux_toolkit_rus.Hw.Profile.{PowerProfile, quiet, custom}
use legion_linux_toolkit_rus.Hw.FirmwareAttrs.Writes.{Reached}
use legion_linux_toolkit_rus.Daemon.Error.{DaemonError, from_hw}
use legion_linux_toolkit_rus.Daemon.Auth.{check}
use legion_linux_toolkit_rus.Daemon.State.Limits.{lookup}
use legion_linux_toolkit_rus.Daemon.Iface.{Daemon, Call}
use legion_linux_toolkit_rus.Daemon.Methods.{handle, set_ppt, set_profile, requires_custom}
use legion_linux_toolkit_rus.Daemon.Methods.Authorization.{handle_unauthorized}
use legion_linux_toolkit_rus.Daemon.Methods.Failure.{IsSilent, handle_failure}
use legion_linux_toolkit_rus.Daemon.Methods.Success.{announced, handle_success}
use legion_linux_toolkit_rus.Daemon.Methods.Limits.{target, set_ppt-guarded}
use legion_linux_toolkit_rus.Daemon.Methods.Effects.{recorded, set_ppt-recorded}
use legion_linux_toolkit_rus.Tests.Machine.{machine, device, put}
use legion_linux_toolkit_rus.Tests.Host.{outside, daemon}

abbrev denial : DaemonError
denial =
    DaemonError.not_authorized (
      plain "not authorized to change Legion hardware settings (active local session required)"
      ∷ [])

unauthorized_example : handle outside (Call.set_fn_lock true) false daemon ≡ (err denial, daemon)
unfolding check
unauthorized_example = handle_unauthorized outside false daemon (Call.set_fn_lock true) denial refl

-- The daemon of the machine in the Quiet profile.
abbrev quiet_daemon : Daemon
quiet_daemon = record daemon { root = put machine (device <> "/profile") "low-power\n" }

ppt_guarded_example :
    ((set_ppt outside "spl" 80 true daemon).1.root ≡ machine)
    ⊎ ((Profile.get machine ≡ ok custom)
        × Reached outside.kernel
            (target outside true daemon "spl")
            80
            machine
            (set_ppt outside "spl" 80 true daemon).1.root)
ppt_guarded_example = set_ppt-guarded outside true daemon "spl" 80

ppt_recorded_example :
    (Profile.get machine ≡ ok custom)
    × ((i : String)
        → lookup i (set_ppt outside "spl" 80 true daemon).1.state.ppt
          ≡ (if i == recorded outside true daemon "spl" then some 80 else lookup i []))
    × ((set_ppt outside "spl" 80 true daemon).1.state.profile ≡ none)
    × ((set_ppt outside "spl" 80 true daemon).1.state.battery_mode ≡ none)
unfolding set_ppt Methods.authorize check Profile.get Text.trim Text.is_whitespace
    FirmwareAttrs.write_by_name Sysfs.exists FirmwareAttrs.from_key Sysfs.read_parsed
    Text.parse_unsigned Sysfs.read_parsed_opt Methods.persist
ppt_recorded_example = set_ppt-recorded outside true daemon "spl" 80 refl

failure_example : IsSilent daemon (handle outside (Call.set_profile "turbo") true daemon).1
unfolding handle Methods.authorize check Profile.from_user Text.is_whitespace from_hw
failure_example =
    handle_failure outside true daemon (Call.set_profile "turbo")
      (from_hw (HwError.parse (plain "unknown power profile " ∷ quoted "turbo" ∷ []))) refl refl

success_example :
    (check outside.bus daemon.authorizer true ≡ ok tt)
    × ((handle outside (Call.set_fn_lock true) true daemon).1.signals
        ≡ daemon.signals ++ announced (Call.set_fn_lock true))
unfolding handle Methods.authorize check Ideapad.set Methods.emit
success_example = handle_success outside true daemon (Call.set_fn_lock true) refl
