-- ===== src/Daemon/Methods/Effects.antt =====
-- What `set_profile` and `set_ppt` have done when they succeed.
use legion_linux_toolkit_rus.Prelude.{ℕ, String, some, ◌≡◌, ◌==◌, refl, arith, if◌then◌else◌}
use legion_linux_toolkit_rus.Prelude.Result.{ok}
use legion_linux_toolkit_rus.Text.{◌<>◌}
use legion_linux_toolkit_rus.Hw.Sysfs.Laws.{IsAttribute}
use legion_linux_toolkit_rus.Hw.Profile
use legion_linux_toolkit_rus.Hw.Profile.{
  PowerProfile, quiet, balanced, performance, extreme, custom,
}
use legion_linux_toolkit_rus.Hw.Profile.RoundTrip.{get-set}
use legion_linux_toolkit_rus.Hw.FirmwareAttrs
use legion_linux_toolkit_rus.Daemon.State
use legion_linux_toolkit_rus.Daemon.State.Limits.{lookup, lookup-insert}
use legion_linux_toolkit_rus.Daemon.Iface.{Outside, Daemon}
use legion_linux_toolkit_rus.Daemon.Methods.{
  authorize, persist, emit, set_ppt, set_profile, named_or,
}
use legion_linux_toolkit_rus.Daemon.Property

module _ (W : Outside) (hdr : W.bus.Header) (d : Daemon) where
  -- The key under which a request for a limit is recorded.
  abbrev pub recorded : String → String
  recorded attr = named_or FirmwareAttrs.key attr (FirmwareAttrs.from_key attr)

  pub set_ppt-ok :
      (attr : String) (watts : ℕ)
      → (set_ppt W attr watts hdr d).0 ≡ ok tt
      → (Profile.get d.root ≡ ok custom)
        × ((set_ppt W attr watts hdr d).1.state ≡ State.set_ppt (recorded attr) watts d.state)
  unfolding set_ppt authorize persist
  set_ppt-ok attr watts h = ground arith

  -- A limit that is set was set in the Custom profile and is recorded under its key; the other
  -- limits, the profile and the battery mode are recorded as before.
  pub set_ppt-recorded :
      (attr : String) (watts : ℕ)
      → (set_ppt W attr watts hdr d).0 ≡ ok tt
      → (Profile.get d.root ≡ ok custom)
        × ((i : String)
            → lookup i (set_ppt W attr watts hdr d).1.state.ppt
              ≡ (if i == recorded attr then some watts else lookup i d.state.ppt))
        × ((set_ppt W attr watts hdr d).1.state.profile ≡ d.state.profile)
        × ((set_ppt W attr watts hdr d).1.state.battery_mode ≡ d.state.battery_mode)
  unfolding State.set_ppt
  set_ppt-recorded attr watts h =
      let e = set_ppt-ok attr watts h in
      rw e.1 (e.0, (λ i. lookup-insert i (recorded attr) watts d.state.ppt), refl, refl)

  -- What a successful `set_profile` has done, in its own terms.
  pub set_profile-ok :
      (value : String)
      → (set_profile W value hdr d).0 ≡ ok tt
      → (p : PowerProfile) × (Profile.from_user value ≡ ok p)
        × ((Profile.set W.kernel p d.root).0 ≡ ok tt)
        × ((set_profile W value hdr d).1.root ≡ (Profile.set W.kernel p d.root).1)
        × ((set_profile W value hdr d).1.state
            ≡ record d.state { profile = some (Profile.as_sysfs p) })
  unfolding set_profile authorize persist emit
  set_profile-ok value h = ground arith

  -- On a device whose `profile` attribute keeps what is written, a profile whose `set_profile`
  -- succeeds is the one that the text names; it is the profile that clients read afterwards, and
  -- the one recorded.
  pub set_profile-shown :
      (value dir : String)
      → Profile.device_dir d.root ≡ some dir
      → IsAttribute W.kernel (dir <> "/profile")
      → (set_profile W value hdr d).0 ≡ ok tt
      → (p : PowerProfile) × (Profile.from_user value ≡ ok p)
        × (Property.profile (set_profile W value hdr d).1.root ≡ Profile.as_sysfs p)
        × ((set_profile W value hdr d).1.state.profile ≡ some (Profile.as_sysfs p))
  unfolding Property.profile
  set_profile-shown value dir found A h =
      let (p, named, done, left, kept) = set_profile-ok value h in
      (p, named, rw (left, get-set W.kernel d.root dir found A p done) refl, rw kept refl)
