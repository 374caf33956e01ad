-- ===== src/Daemon/Methods/Limits.antt =====
-- `set_ppt` and `set_profile`: the gate on the Custom profile, and what is recorded.
use legion_linux_toolkit_rus.Prelude.{ℕ, String, ◌≡◌, ◌≢◌, ◌⊎◌, inl, inr, refl, ◌∙◌, arith}
use legion_linux_toolkit_rus.Prelude.Result.{ok, err}
use legion_linux_toolkit_rus.Hw.Profile
use legion_linux_toolkit_rus.Hw.Profile.{
  PowerProfile, quiet, balanced, performance, extreme, custom,
}
use legion_linux_toolkit_rus.Hw.FirmwareAttrs
use legion_linux_toolkit_rus.Hw.FirmwareAttrs.{PptAttr}
use legion_linux_toolkit_rus.Hw.FirmwareAttrs.Writes.{Reached, write_by_name-guarded}
use legion_linux_toolkit_rus.Daemon.Auth.{check}
use legion_linux_toolkit_rus.Daemon.Iface.{Outside, Daemon}
use legion_linux_toolkit_rus.Daemon.Methods.{authorize, persist, set_ppt, requires_custom, named_or}

module _ (W : Outside) (hdr : W.bus.Header) (d : Daemon) where
  -- An authorized caller who sets a limit while another profile than Custom is active gets an error
  -- that names the profile, and nothing changes.
  pub set_ppt-gated :
      (attr : String) (watts : ℕ) (p : PowerProfile)
      → check W.bus d.authorizer hdr ≡ ok tt
      → Profile.get d.root ≡ ok p
      → p ≢ custom
      → set_ppt W attr watts hdr d ≡ (err (requires_custom p), d)
  unfolding set_ppt authorize
  set_ppt-gated attr watts quiet a g n = rw (a, g)
  set_ppt-gated attr watts balanced a g n = rw (a, g)
  set_ppt-gated attr watts performance a g n = rw (a, g)
  set_ppt-gated attr watts extreme a g n = rw (a, g)
  set_ppt-gated attr watts custom a g n = elim (n refl) [ ]

  -- The directory below the firmware attributes that a request for a limit writes.
  abbrev pub target : String → String
  target attr = named_or FirmwareAttrs.dir_name attr (FirmwareAttrs.from_key attr)

  pub set_ppt-files :
      (attr : String) (watts : ℕ)
      → ((set_ppt W attr watts hdr d).1.root ≡ d.root)
        ⊎ ((Profile.get d.root ≡ ok custom)
            × ((set_ppt W attr watts hdr d).1.root
                ≡ (FirmwareAttrs.write_by_name W.kernel (target attr) watts d.root).1))
  unfolding set_ppt authorize persist
  set_ppt-files attr watts = ground arith

  -- A request for a limit that changes a file was made in the Custom profile, and what it wrote
  -- is a value in the range that the firmware declares for the attribute.
  pub set_ppt-guarded :
      (attr : String) (watts : ℕ)
      → ((set_ppt W attr watts hdr d).1.root ≡ d.root)
        ⊎ ((Profile.get d.root ≡ ok custom)
            × Reached W.kernel (target attr) watts d.root (set_ppt W attr watts hdr d).1.root)
  set_ppt-guarded attr watts = elim (set_ppt-files attr watts) [
    | inl same ↦ inl same
    | inr (c, left) ↦ elim (write_by_name-guarded W.kernel (target attr) watts d.root) [
      | inl same ↦ inl (left ∙ same)
      | inr reached ↦ inr (c, rw left reached)
    ]
  ]
