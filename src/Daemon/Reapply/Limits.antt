-- ===== src/Daemon/Reapply/Limits.antt =====
-- The limits are back after they have been reapplied.
use legion_linux_toolkit_rus.Prelude.{ℕ, ◌<◌, String, [], ◌∷◌, ◌++◌, ◌≡◌, ◌≢◌, refl, ◌∙◌, All}
use legion_linux_toolkit_rus.Prelude.Result.{ok, err}
use legion_linux_toolkit_rus.Hw.Error.{HwResult}
use legion_linux_toolkit_rus.Hw.Sysfs.{Sysfs, Kernel}
use legion_linux_toolkit_rus.Hw.Sysfs.Laws.{IsAttribute}
use legion_linux_toolkit_rus.Hw.FirmwareAttrs.{
  PptAttr, AttrInfo, dir_name, from_key, read_attr, write_attr,
}
use legion_linux_toolkit_rus.Hw.FirmwareAttrs.Others.{read_attr-write_attr_other}
use legion_linux_toolkit_rus.Hw.FirmwareAttrs.Writes.{current_file, read_by_name-write_by_name}
use legion_linux_toolkit_rus.Daemon.State.{Limits}
use legion_linux_toolkit_rus.Daemon.Reapply.{reapply_limit, reapply_limits}
use legion_linux_toolkit_rus.Daemon.Reapply.Order.{reapply_limits-append}

-- No entry of the limits is for this one.
abbrev pub Spares : PptAttr → Limits → Type 0
Spares a l = All (λ (e : String × ℕ). from_key e.0 ≢ ok a) l

module _ (K : Kernel) (A : (b : PptAttr) → IsAttribute K (current_file (dir_name b))) where
  read_attr-limit :
      (a : PptAttr) (r : HwResult PptAttr) (watts : ℕ) (root : Sysfs)
      → r ≢ ok a
      → read_attr (reapply_limit K r watts root) a ≡ read_attr root a
  read_attr-limit a (err e) watts root ne = refl
  read_attr-limit a (ok b) watts root ne =
      read_attr-write_attr_other K a b watts root (A b) (λ e. ne (rw e refl))

  read_attr-limits :
      (a : PptAttr) (l : Limits) (root : Sysfs)
      → Spares a l
      → read_attr (reapply_limits K l root) a ≡ read_attr root a
  unfolding reapply_limits
  read_attr-limits a [] root s = refl
  read_attr-limits a ((key, watts) ∷ rest) root (s, more) =
      read_attr-limits a rest (reapply_limit K (from_key key) watts root) more
      ∙ read_attr-limit a (from_key key) watts root s

  read_attr-write_attr :
      (a : PptAttr) (watts : ℕ) (root : Sysfs) (info : AttrInfo)
      → watts < 4294967296
      → read_attr root a ≡ ok info
      → (write_attr K a watts root).0 ≡ ok tt
      → read_attr (write_attr K a watts root).1 a ≡ ok (record info { current = watts })
  unfolding read_attr write_attr
  read_attr-write_attr a watts root info fits known accepted =
      read_by_name-write_by_name K (dir_name a) watts root (A a) fits info known accepted

  -- A persisted limit whose entry is the only one for its attribute, and which the kernel accepts
  -- when its turn comes, is the current value of the attribute once all limits are reapplied; the
  -- attribute has its range, its default and its step as before. The attributes of the limits are
  -- taken to keep what is written to them.
  pub read_attr-reapply_limits :
      (a : PptAttr) (key : String) (watts : ℕ) (done rest : Limits) (root : Sysfs) (info : AttrInfo)
      → from_key key ≡ ok a
      → Spares a done
      → Spares a rest
      → watts < 4294967296
      → read_attr root a ≡ ok info
      → (write_attr K a watts (reapply_limits K done root)).0 ≡ ok tt
      → read_attr (reapply_limits K (done ++ (key, watts) ∷ rest) root) a
        ≡ ok (record info { current = watts })
  unfolding reapply_limits
  read_attr-reapply_limits a key watts done rest root info named before after fits known accepted =
      let there : read_attr (reapply_limits K done root) a ≡ ok info =
        read_attr-limits a done root before ∙ known in
      rw (reapply_limits-append K done ((key, watts) ∷ rest) root, named)
        (read_attr-limits a rest (write_attr K a watts (reapply_limits K done root)).1 after
          ∙ read_attr-write_attr a watts (reapply_limits K done root) info fits there accepted)
