-- ===== src/Ctl/Main/Hint.antt =====
-- What the user reads where a power limit needs the Custom profile.
use legion_linux_toolkit_rus.Prelude.{
  ℕ, String, true, false, Option, some, List, [], ◌∷◌, ◌++◌, ◌≡◌, ◌≢◌, refl, ap, ◌∙◌, map,
}
use legion_linux_toolkit_rus.Prelude.Float.{Floats}
use legion_linux_toolkit_rus.Prelude.Result.{Result, ok, err}
use legion_linux_toolkit_rus.Bus.{ZbusError, method_error, Json, IsJson, Answers}
use legion_linux_toolkit_rus.Hw.Error.{HwError, Message, plain}
use legion_linux_toolkit_rus.Hw.Sysfs.{Kernel, Action}
use legion_linux_toolkit_rus.Hw.Profile
use legion_linux_toolkit_rus.Hw.Profile.{PowerProfile, custom}
use legion_linux_toolkit_rus.Hw.FirmwareAttrs
use legion_linux_toolkit_rus.Hw.FirmwareAttrs.{AttrInfo, in_range}
use legion_linux_toolkit_rus.Daemon.Reports
use legion_linux_toolkit_rus.Daemon.Error.{DaemonError}
use legion_linux_toolkit_rus.Daemon.Auth.{check}
use legion_linux_toolkit_rus.Daemon.Iface.{Outside, Daemon, Call}
use legion_linux_toolkit_rus.Daemon.Methods.{handle, named_or}
use legion_linux_toolkit_rus.Daemon.Methods.Limits.{set_ppt-gated}
use legion_linux_toolkit_rus.Ctl.Backend.{
  Proxy, Backend, daemon, direct, try_daemon, connect, fallback_hint, change, describe_error,
  describe_hw_error,
}
use legion_linux_toolkit_rus.Ctl.Commands.{ppt, ppt_of, ppt_value, entry_of, read_ppt}
use legion_linux_toolkit_rus.Ctl.Commands.Agreement.{served}
use legion_linux_toolkit_rus.Ctl.Main.{Command, Outcome, dispatch, hinted, main, finish}

abbrev pub custom_first : Message
custom_first = plain "switch to the Custom profile first: legion-ctl profile custom" ∷ []

-- The end of a run that fails with that message, after some hints.
abbrev pub refused : List Message → Outcome
refused hints = record {
  stdout = [];
  stderr = hints ++ (plain "legion-ctl: " ∷ custom_first) ∷ [];
  success = false;
}

-- zbus's derived names of the errors, for the one that asks for the Custom profile.
pub record IsNamed (z : DaemonError → ZbusError) : Type 0 where
  pub custom_mode_required :
      (m : Message)
      → (detail : Option String) × (z (DaemonError.custom_mode_required m)
          ≡ method_error "org.legiontoolkit.Error.CustomModeRequired" detail)

module _ (F : Floats) (J : Json) (I : IsJson J) (W : Outside) (hdr : W.bus.Header)
    (z : DaemonError → ZbusError) (N : IsNamed z) (K : Kernel)
    (changes : List (Result ZbusError String)) (d : Daemon) (attr : String) (watts : ℕ)
    (info : AttrInfo)
    (listed : entry_of (served J W hdr z) K attr (FirmwareAttrs.list_all d.root) ≡ some info)
    (within : in_range info watts ≡ true) where
  abbrev P : Proxy
  P = served J W hdr z

  -- The write that the command makes without the daemon.
  abbrev pub write : Action
  write =
      FirmwareAttrs.write_by_name K
        (named_or FirmwareAttrs.dir_name info.key (FirmwareAttrs.from_key info.key)) watts

  ppt_of-found :
      (b : Backend) (all : List AttrInfo)
      → entry_of P K attr all ≡ some info
      → ppt_of P K b (some attr) (some watts) (ok all) d ≡ ppt_value P K b (some watts) info d
  ppt_of-found b [] h = cc
  ppt_of-found b (a ∷ rest) h = rw h refl

  -- The list of the limits, from the daemon's text or from the files.
  read_ppt-listed : (b : Backend) → read_ppt P b d ≡ ok (FirmwareAttrs.list_all d.root)
  unfolding read_ppt Reports.get_ppt
  read_ppt-listed daemon =
      let l = I.attrs_text (FirmwareAttrs.list_all d.root) in rw (l.1, l.2) refl
  read_ppt-listed direct = refl

  ppt-refused :
      (b : Backend) (left : Daemon)
      → change P b (Call.set_ppt info.key watts) write d ≡ (err custom_first, left)
      → ppt P K b (some attr) (some watts) d ≡ (err custom_first, left)
  unfolding ppt
  ppt-refused b after left =
      rw (read_ppt-listed b)
        (ppt_of-found b (FirmwareAttrs.list_all d.root) listed ∙ rw (within, left) refl)

  change-gated :
      (p : PowerProfile)
      → check W.bus d.authorizer hdr ≡ ok tt
      → Profile.get d.root ≡ ok p
      → p ≢ custom
      → change P daemon (Call.set_ppt info.key watts) write d ≡ (err custom_first, d)
  unfolding change handle describe_error
  change-gated p allowed active ne =
      let (detail, named) = N.custom_mode_required (
        plain "power limits require the Custom profile; current profile is "
        ∷ plain (Profile.as_sysfs p)
        ∷ []) in
      rw (set_ppt-gated W hdr d info.key watts p allowed active ne, named) refl

  -- The files as the write that the kernel answers with an error has left them.
  abbrev pub tried : Daemon
  tried = record d { root = (write d.root).1 }

  change-busy :
      (write d.root).0 ≡ err HwError.busy
      → change P direct (Call.set_ppt info.key watts) write d ≡ (err custom_first, tried)
  unfolding change describe_hw_error
  change-busy h = rw h refl

  ppt-end :
      (b : Backend) (after : Daemon)
      → ppt P K b (some attr) (some watts) d ≡ (err custom_first, after)
      → dispatch P F K b changes (Command.ppt (some attr) (some watts)) d ≡ (refused [], after)
  unfolding dispatch finish
  ppt-end b after h = rw h refl

  main-end :
      (answers : Answers) (b : Backend) (hints : List String) (left : Daemon)
      → connect answers ≡ (b, hints)
      → ppt P K b (some attr) (some watts) d ≡ (err custom_first, left)
      → main P F K answers changes (Command.ppt (some attr) (some watts)) d
        ≡ (refused (map (λ h. plain h ∷ []) hints), left)
  unfolding main
  main-end answers b hints left c h =
      ap
        (λ (q : Backend × List String).
          let (o, after) = dispatch P F K q.0 changes (Command.ppt (some attr) (some watts)) d in
          (hinted P F K q.1 o, after))
        c
      ∙ ap (λ (q : Outcome × Daemon). (hinted P F K hints q.0, q.1)) (ppt-end b left h)

  -- `legion-ctl ppt` with a limit that the machine has and a value in its range, by a caller whom
  -- the daemon allows, while another profile than Custom is active, with the derived names of the
  -- errors and JSON texts that read back: over the daemon the program fails with the message that
  -- the Custom profile comes first and changes nothing, whatever the kernel would answer the
  -- daemon; where there is no daemon and the kernel answers the program's own write with a busy
  -- device, it fails with the same message, below the line that there is no daemon, and leaves the
  -- files as the attempt has left them. Both ways nothing else is printed.
  pub main-refused :
      (up down : Answers) (p : PowerProfile)
      → try_daemon up ≡ true
      → try_daemon down ≡ false
      → check W.bus d.authorizer hdr ≡ ok tt
      → Profile.get d.root ≡ ok p
      → p ≢ custom
      → (write d.root).0 ≡ err HwError.busy
      → (main P F K up changes (Command.ppt (some attr) (some watts)) d ≡ (refused [], d))
        × (main P F K down changes (Command.ppt (some attr) (some watts)) d
            ≡ (refused ((plain fallback_hint ∷ []) ∷ []), tried))
  unfolding connect
  main-refused up down p u n allowed active ne busy = (
    main-end up daemon [] d (rw u refl) (ppt-refused daemon d (change-gated p allowed active ne)),
    main-end down direct (fallback_hint ∷ []) tried (rw n refl)
        (ppt-refused direct tried (change-busy busy)),
  )
