-- ===== src/Daemon/Reapply/Order.antt =====
-- The profile is reapplied before the limits, which the firmware accepts in the Custom profile
-- only.
use legion_linux_toolkit_rus.Prelude.{
  ℕ, String, Option, none, some, [], ◌∷◌, ◌≡◌, refl, ◌∙◌, ◌++◌, inl, inr, Option-cases,
}
use legion_linux_toolkit_rus.Prelude.Result.{ok, err}
use legion_linux_toolkit_rus.Text.{◌<>◌}
use legion_linux_toolkit_rus.Text.Decimal.{show}
use legion_linux_toolkit_rus.Hw.Error.{HwResult}
use legion_linux_toolkit_rus.Hw.Sysfs.{Sysfs, Kernel, read}
use legion_linux_toolkit_rus.Hw.Sysfs.Laws.{IsAttribute, write-left}
use legion_linux_toolkit_rus.Hw.Profile
use legion_linux_toolkit_rus.Hw.Profile.{PowerProfile, class_dir}
use legion_linux_toolkit_rus.Hw.Profile.Device.{dir_of}
use legion_linux_toolkit_rus.Hw.Profile.Names.{from_sysfs-as_sysfs}
use legion_linux_toolkit_rus.Hw.Profile.RoundTrip.{device_dir_cong, get-set}
use legion_linux_toolkit_rus.Hw.Battery
use legion_linux_toolkit_rus.Hw.Battery.{ChargeMode, charge_file}
use legion_linux_toolkit_rus.Hw.FirmwareAttrs
use legion_linux_toolkit_rus.Hw.FirmwareAttrs.{PptAttr}
use legion_linux_toolkit_rus.Hw.FirmwareAttrs.Writes.{current_file, write_by_name-guarded}
use legion_linux_toolkit_rus.Daemon.State.{Limits}
use legion_linux_toolkit_rus.Daemon.Iface.{Daemon}
use legion_linux_toolkit_rus.Daemon.Reapply.{
  reapply_state, reapply_profile, reapply_battery, reapply_battery_parsed, reapply_limit,
  reapply_limits,
}

-- Two states of the files that agree on what the profile is read from.
pub record SameProfile (r s : Sysfs) : Type 0 where
  pub dirs : s.read_dir class_dir ≡ r.read_dir class_dir
  pub names : (e : String) → s.read_file (dir_of e <> "/name") ≡ r.read_file (dir_of e <> "/name")
  pub profiles : (e : String) → s.read_file (e <> "/profile") ≡ r.read_file (e <> "/profile")

-- What the kernel documents: the selection of a charge mode and the setting of a limit leave the
-- profile as it is.
pub record KeepsProfile (K : Kernel) : Type 0 where
  pub on_charge : (root : Sysfs) (v : String) → SameProfile root (K root charge_file v).1
  pub on_limit :
      (root : Sysfs) (name v : String) → SameProfile root (K root (current_file name) v).1

get_cong : (r s : Sysfs) → SameProfile r s → Profile.get s ≡ Profile.get r
unfolding Profile.get Profile.profile_file read
get_cong r s h = elim (Option-cases (Profile.device_dir r)) [
  | inl e ↦ rw (device_dir_cong r s h.dirs h.names, e) refl
  | inr (dir, e) ↦ rw (device_dir_cong r s h.dirs h.names, e, h.profiles dir) refl
]

module _ (K : Kernel) (H : KeepsProfile K) where
  get-limit :
      (a : HwResult PptAttr) (watts : ℕ) (root : Sysfs)
      → Profile.get (reapply_limit K a watts root) ≡ Profile.get root
  unfolding FirmwareAttrs.write_attr
  get-limit (err e) watts root = refl
  get-limit (ok a) watts root =
      elim (write_by_name-guarded K (FirmwareAttrs.dir_name a) watts root) [
        | inl same ↦ rw same refl
        | inr reached ↦
            rw reached.left
              (get_cong root _ (H.on_limit root (FirmwareAttrs.dir_name a) (show watts)))
      ]

  get-limits :
      (l : Limits) (root : Sysfs) → Profile.get (reapply_limits K l root) ≡ Profile.get root
  unfolding reapply_limits
  get-limits [] root = refl
  get-limits ((key, watts) ∷ rest) root =
      get-limits rest (reapply_limit K (FirmwareAttrs.from_key key) watts root)
      ∙ get-limit (FirmwareAttrs.from_key key) watts root

  get-battery_parsed :
      (m : HwResult ChargeMode) (root : Sysfs)
      → Profile.get (reapply_battery_parsed K m root) ≡ Profile.get root
  unfolding Battery.set_mode
  get-battery_parsed (err e) root = refl
  get-battery_parsed (ok m) root = elim (write-left K charge_file (Battery.as_sysfs m) root) [
    | inl same ↦ rw same refl
    | inr left ↦ rw left (get_cong root _ (H.on_charge root (Battery.as_sysfs m)))
  ]

  get-battery :
      (m : Option String) (root : Sysfs) → Profile.get (reapply_battery K m root) ≡ Profile.get root
  get-battery none root = refl
  get-battery (some m) root = get-battery_parsed (Battery.from_sysfs m) root

pub reapply_limits-append :
    (K : Kernel) (l m : Limits) (root : Sysfs)
    → reapply_limits K (l ++ m) root ≡ reapply_limits K m (reapply_limits K l root)
unfolding reapply_limits
reapply_limits-append K [] m root = refl
reapply_limits-append K ((key, watts) ∷ l) m root =
    reapply_limits-append K l m (reapply_limit K (FirmwareAttrs.from_key key) watts root)

module _ (K : Kernel) (H : KeepsProfile K) (d : Daemon) (dir : String)
    (found : Profile.device_dir d.root ≡ some dir) (A : IsAttribute K (dir <> "/profile"))
    (p : PowerProfile) (persisted : d.state.profile ≡ some (Profile.as_sysfs p))
    (accepted : (Profile.set K p d.root).0 ≡ ok tt) where
  reapply_profile_lem : reapply_profile K d.state.profile d.root ≡ (Profile.set K p d.root).1
  reapply_profile_lem = rw (persisted, from_sysfs-as_sysfs p) refl

  -- Where the device's `profile` attribute keeps what is written, charge modes and limits leave the
  -- profile alone, and the kernel accepts the persisted profile, that profile is active whenever
  -- the daemon goes on to reapply the limits that are left, and so at the end.
  pub reapply_state-in_profile :
      (done rest : Limits)
      → d.state.ppt ≡ done ++ rest
      → (root : Sysfs) × (Profile.get root ≡ ok p)
        × ((reapply_state K d).root ≡ reapply_limits K rest root)
  unfolding reapply_state
  reapply_state-in_profile done rest split =
      let start =
        reapply_battery K d.state.battery_mode (reapply_profile K d.state.profile d.root) in
      (
        reapply_limits K done start,
        get-limits K H done start
            ∙ get-battery K H d.state.battery_mode (reapply_profile K d.state.profile d.root)
            ∙ rw reapply_profile_lem (get-set K d.root dir found A p accepted),
        rw split (reapply_limits-append K done rest start),
      )
