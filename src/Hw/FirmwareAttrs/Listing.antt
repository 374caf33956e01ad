-- ===== src/Hw/FirmwareAttrs/Listing.antt =====
-- The scan of the attributes directory.
use legion_linux_toolkit_rus.Prelude.{
  String, List, ◌≡◌, true, In, In-filter, In-filter_map, Bool-cases, inl, inr,
}
use legion_linux_toolkit_rus.Prelude.Result.{ok, to_option}
use legion_linux_toolkit_rus.Text.Sort.{sort}
use legion_linux_toolkit_rus.Text.Sort.Members.{In-sort}
use legion_linux_toolkit_rus.Hw.Sysfs.{Sysfs, exists, list_dir}
use legion_linux_toolkit_rus.Hw.FirmwareAttrs.{
  AttrInfo, attr_dir, attr_file, available_attrs, read_by_name, list_all,
}

module _ (root : Sysfs) (names : List String) (name : String) (info : AttrInfo)
    (listing : root.read_dir attr_dir ≡ ok names) (listed : In name names)
    (readable : read_by_name root name ≡ ok info) where
  exists-current : exists root (attr_file name "current_value") ≡ true
  unfolding read_by_name
  exists-current = elim (Bool-cases (exists root (attr_file name "current_value"))) [
    | inl b ↦ b
    | inr b ↦ cc (rw b at readable)
  ]

  In-available_attrs : In name (available_attrs root)
  unfolding available_attrs list_dir
  In-available_attrs = rw listing (
      In-filter (λ n. exists root (attr_file n "current_value")) name (sort names)
        (In-sort name names listed) exists-current)

  -- Every attribute that the directory lists and that can be read is in the list, whatever its
  -- name.
  pub In-list_all : In info (list_all root)
  unfolding list_all
  In-list_all =
      In-filter_map (λ n. to_option (read_by_name root n)) name info (available_attrs root)
        In-available_attrs (rw readable)
