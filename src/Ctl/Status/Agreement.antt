-- ===== src/Ctl/Status/Agreement.antt =====
-- The status over the daemon against the status straight from the files.
use legion_linux_toolkit_rus.Prelude.{
  String, Bool, true, false, List, [], ◌∷◌, ◌++◌, Option, some, ◌≡◌, refl, ap, ◌∙◌, Bool-cases, inl,
  inr,
}
use legion_linux_toolkit_rus.Prelude.Float.{Floats}
use legion_linux_toolkit_rus.Prelude.Result.{Result, ok, err, map_ok, unwrap_or, to_option}
use legion_linux_toolkit_rus.Bus.{ZbusError, Json, IsJson}
use legion_linux_toolkit_rus.Hw.Error.{HwResult, Message}
use legion_linux_toolkit_rus.Hw.Sysfs.{Sysfs}
use legion_linux_toolkit_rus.Hw.Detect
use legion_linux_toolkit_rus.Hw.Detect.{Capabilities}
use legion_linux_toolkit_rus.Hw.Profile
use legion_linux_toolkit_rus.Hw.Profile.{PowerProfile}
use legion_linux_toolkit_rus.Hw.FirmwareAttrs.{AttrInfo, list_all}
use legion_linux_toolkit_rus.Daemon.Error.{DaemonError}
use legion_linux_toolkit_rus.Daemon.Iface.{Outside, Daemon}
use legion_linux_toolkit_rus.Daemon.Property
use legion_linux_toolkit_rus.Daemon.Reports
use legion_linux_toolkit_rus.Ctl.Backend.{daemon, direct}
use legion_linux_toolkit_rus.Ctl.Commands.{read_ppt, described}
use legion_linux_toolkit_rus.Ctl.Commands.Agreement.{served}
use legion_linux_toolkit_rus.Ctl.Status.{
  current_profile, profile_lines, body_of, body, status, daemon_line, identity_lines, line,
}

-- The line for a profile that a device has and that cannot be read.
abbrev pub nameless : Bool → HwResult PowerProfile → List Message
nameless there (ok p) = []
nameless false (err e) = []
nameless true (err e) = described "profile" "" "unknown" ∷ []

abbrev token : HwResult PowerProfile → Option String
token r = some (unwrap_or "" (map_ok Profile.as_sysfs r))

body_of-nameless :
    (F : Floats) (caps : Capabilities) (root : Sysfs) (r : HwResult PowerProfile)
    (all : Result Message (List AttrInfo))
    → body_of F caps root (token r) all
      ≡ nameless caps.platform_profile r
        ++ body_of F caps root (to_option (map_ok Profile.as_sysfs r)) all
unfolding body_of profile_lines Profile.from_sysfs Detect.is_empty
body_of-nameless F caps root (ok p) all = refl
body_of-nameless F caps root (err e) all = elim (Bool-cases caps.platform_profile) [
  | inl b ↦ rw b refl
  | inr b ↦ rw b refl
]

module _ (F : Floats) (J : Json) (I : IsJson J) (W : Outside) (hdr : W.bus.Header)
    (z : DaemonError → ZbusError) where
  -- The limits that the daemon writes as a text read back as those of the files.
  read_ppt-agrees :
      (d : Daemon) → read_ppt (served J W hdr z) daemon d ≡ read_ppt (served J W hdr z) direct d
  unfolding read_ppt Reports.get_ppt
  read_ppt-agrees d = let l = I.attrs_text (list_all d.root) in rw (l.1, l.2) refl

  body-agrees :
      (d : Daemon)
      → body F (served J W hdr z) daemon d
        ≡ nameless (Profile.available d.root) (Profile.get d.root)
          ++ body F (served J W hdr z) direct d
  unfolding body current_profile Property.profile Detect.probe
  body-agrees d =
      ap (body_of F (Detect.probe F d.root) d.root (token (Profile.get d.root))) (read_ppt-agrees d)
      ∙ body_of-nameless F (Detect.probe F d.root) d.root (Profile.get d.root)
          (read_ppt (served J W hdr z) direct d)

  -- Where JSON texts read back, `status` prints over the daemon what it prints straight from the
  -- files, the limits that come as a text included, but for the line that says whether the daemon
  -- runs, and for a line right after it that gives an empty profile as unknown, exactly where there
  -- is a device and its profile cannot be read.
  pub status-agrees :
      (d : Daemon)
      → (first rest : List Message) × (status F (served J W hdr z) daemon d
          ≡ first
            ++ line "daemon" "running"
              ∷ (nameless (Profile.available d.root) (Profile.get d.root) ++ rest))
        × (status F (served J W hdr z) direct d ≡ first ++ line "daemon" "not running" ∷ rest)
  unfolding status daemon_line
  status-agrees d =
      let first = identity_lines (Detect.probe F d.root) in
      (
        first,
        body F (served J W hdr z) direct d,
        ap (λ rest. first ++ line "daemon" "running" ∷ rest) (body-agrees d),
        refl,
      )
