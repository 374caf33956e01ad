-- ===== src/Daemon/Reapply/Unknown.antt =====
-- The limits that `reapply_state` passes over.
use Prim.Native.String.{compare}
use text.Mathlib.TextEquality.{path_by_compare}
use legion_linux_toolkit_rus.Prelude.{ℕ, String, some, [], ◌∷◌, ◌≡◌, inl, inr, refl, ◌∙◌, eq_refl}
use legion_linux_toolkit_rus.Prelude.Result.{ok, err}
use legion_linux_toolkit_rus.Hw.Error.{HwError}
use legion_linux_toolkit_rus.Hw.Sysfs.{Sysfs, Kernel}
use legion_linux_toolkit_rus.Hw.FirmwareAttrs.{from_key}
use legion_linux_toolkit_rus.Daemon.State
use legion_linux_toolkit_rus.Daemon.State.{Limits, insert}
use legion_linux_toolkit_rus.Daemon.State.Limits.{Ordering-cases, lookup, lookup-insert}
use legion_linux_toolkit_rus.Daemon.Iface.{Outside, Daemon}
use legion_linux_toolkit_rus.Daemon.Methods.{set_ppt}
use legion_linux_toolkit_rus.Daemon.Methods.Effects.{set_ppt-ok}
use legion_linux_toolkit_rus.Daemon.Reapply.{
  reapply_state, reapply_limits, reapply_limit, reapply_profile, reapply_battery,
}

module _ (K : Kernel) (key : String) (watts : ℕ) (e : HwError)
    (unknown : from_key key ≡ err e) where
  reapply_limits-cons :
      (m : Limits) (root : Sysfs)
      → reapply_limits K ((key, watts) ∷ m) root ≡ reapply_limits K m root
  unfolding reapply_limits
  reapply_limits-cons m root = rw unknown refl

  reapply_limits-insert :
      (m : Limits) (root : Sysfs)
      → reapply_limits K (insert key watts m) root ≡ reapply_limits K m root
  unfolding reapply_limits insert
  reapply_limits-insert [] root = reapply_limits-cons [] root
  reapply_limits-insert ((j, w) ∷ m) root = elim (Ordering-cases (compare key j)) [
    | inl lt ↦ rw lt (reapply_limits-cons ((j, w) ∷ m) root)
    | inr (inl eq) ↦
        rw eq (reapply_limits-cons m root ∙ rw (← path_by_compare key j eq, unknown) refl)
    | inr (inr gt) ↦ rw gt (reapply_limits-insert m (reapply_limit K (from_key j) w root))
  ]

module _ (W : Outside) (hdr : W.bus.Header) (d : Daemon) (attr : String) (watts : ℕ) (e : HwError)
    (unknown : from_key attr ≡ err e) where
  set_ppt-left :
      (set_ppt W attr watts hdr d).0 ≡ ok tt
      → (set_ppt W attr watts hdr d).1.state
        ≡ record d.state { ppt = insert attr watts d.state.ppt }
  unfolding State.set_ppt
  set_ppt-left done = (set_ppt-ok W hdr d attr watts done).1 ∙ rw unknown refl

  -- A limit that the daemon sets under a name that is none of the known limits is recorded under
  -- that name, and never restored: on whatever files, the daemon reapplies what it would have
  -- reapplied without it.
  pub set_ppt-unrestored :
      (set_ppt W attr watts hdr d).0 ≡ ok tt
      → (lookup attr (set_ppt W attr watts hdr d).1.state.ppt ≡ some watts)
        × ((root : Sysfs)
            → (reapply_state W.kernel (record (set_ppt W attr watts hdr d).1 { root = root })).root
              ≡ (reapply_state W.kernel (record d { root = root })).root)
  unfolding reapply_state
  set_ppt-unrestored done =
      let left = set_ppt-left done in
      (
        rw left (lookup-insert attr attr watts d.state.ppt ∙ rw (eq_refl attr) refl),
        λ root. rw left (
            reapply_limits-insert W.kernel attr watts e unknown d.state.ppt (
              reapply_battery W.kernel d.state.battery_mode
                (reapply_profile W.kernel d.state.profile root))),
      )
