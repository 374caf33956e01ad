-- ===== src/Hw/FirmwareAttrs/Writes.antt =====
-- Writes of a firmware attribute: what can reach the kernel, and what is read afterwards.
use legion_linux_toolkit_rus.Prelude.{
  ℕ, ◌≤◌, ◌<◌, String, ◌≡◌, ◌≢◌, ◌⊎◌, inl, inr, refl, ◌∙◌, arith, Bool-cases,
}
use legion_linux_toolkit_rus.Prelude.Result.{ok, err}
use legion_linux_toolkit_rus.Text.Append.{append-ne, ne_of_test}
use legion_linux_toolkit_rus.Text.Decimal.{show}
use legion_linux_toolkit_rus.Hw.Error.{HwResult}
use legion_linux_toolkit_rus.Hw.Sysfs.{Sysfs, Kernel, u32, read_parsed, exists, write}
use legion_linux_toolkit_rus.Hw.Sysfs.Laws.{
  IsAttribute, write-left, read_parsed-write, keeps_files-write, keeps_paths-write, read_opt_cong,
  read_parsed_opt_cong,
}
use legion_linux_toolkit_rus.Hw.FirmwareAttrs.{
  AttrInfo, attr_dir, attr_file, in_range, read_by_name, write_by_name, write_checked,
}

abbrev pub current_file : String → String
current_file name = attr_file name "current_value"

-- The attribute was read, `watts` lies in its range, and the files are those that the kernel left
-- after the write of `watts`.
pub record Reached (K : Kernel) (name : String) (watts : ℕ) (root after : Sysfs) : Type 0 where
  pub info : AttrInfo
  pub known : read_by_name root name ≡ ok info
  pub above : info.min ≤ watts
  pub below : watts ≤ info.max
  pub left : after ≡ (K root (current_file name) (show watts)).1

write_checked-guarded :
    (K : Kernel) (name : String) (watts : ℕ) (root : Sysfs) (r : HwResult AttrInfo)
    → read_by_name root name ≡ r
    → ((write_checked K name watts r root).1 ≡ root)
      ⊎ Reached K name watts root (write_checked K name watts r root).1
write_checked-guarded K name watts root (err e) h = inl refl
write_checked-guarded K name watts root (ok info) h = elim (Bool-cases (in_range info watts)) [
  | inr b ↦ inl (rw b)
  | inl b ↦ elim (write-left K (current_file name) (show watts) root) [
    | inl same ↦ inl (rw b same)
    | inr left ↦ inr (record {
      info = info;
      known = h;
      above = unfold in_range in ground arith;
      below = unfold in_range in ground arith;
      left = rw b left;
    })
  ]
]

-- A request to set an attribute leaves the files alone, unless the attribute can be read and the
-- value lies in the range that the firmware declares; then it leaves what the kernel made of the
-- write of that value.
pub write_by_name-guarded :
    (K : Kernel) (name : String) (watts : ℕ) (root : Sysfs)
    → ((write_by_name K name watts root).1 ≡ root)
      ⊎ Reached K name watts root (write_by_name K name watts root).1
write_by_name-guarded K name watts root =
    unfold write_by_name in write_checked-guarded K name watts root (read_by_name root name) refl

current_file-ne :
    (name file : String) → file ≢ "current_value" → attr_file name file ≢ current_file name
current_file-ne name file ne =
    append-ne attr_dir (append-ne "/" (append-ne name (append-ne "/" ne)))

abbrev Kept : Sysfs → Sysfs → String → String → Type 0
Kept r s name file = s.read_file (attr_file name file) ≡ r.read_file (attr_file name file)

-- Two states that agree on an attribute but for its current value give records that do.
read_by_name_cong :
    (r s : Sysfs) (name : String) (watts : ℕ) (info : AttrInfo)
    → exists s (current_file name) ≡ exists r (current_file name)
    → read_parsed u32 s (current_file name) ≡ ok watts
    → Kept r s name "display_name"
    → Kept r s name "default_value"
    → Kept r s name "min_value"
    → Kept r s name "max_value"
    → Kept r s name "scalar_increment"
    → read_by_name r name ≡ ok info
    → read_by_name s name ≡ ok (record info { current = watts })
unfolding read_by_name
read_by_name_cong r s name watts info e c n d lo hi st h =
    rw
      (
        e,
        c,
        read_opt_cong r s (attr_file name "display_name") n,
        read_parsed_opt_cong r s (attr_file name "default_value") d u32,
        read_parsed_opt_cong r s (attr_file name "min_value") lo u32,
        read_parsed_opt_cong r s (attr_file name "max_value") hi u32,
        read_parsed_opt_cong r s (attr_file name "scalar_increment") st u32,
      )
      (ground arith)

module _ (K : Kernel) (name : String) (watts : ℕ) (root : Sysfs)
    (A : IsAttribute K (current_file name)) (fits : watts < 4294967296) (info : AttrInfo)
    (known : read_by_name root name ≡ ok info) where
  write_by_name_lem : write_by_name K name watts root ≡ write_checked K name watts (ok info) root
  unfolding write_by_name
  write_by_name_lem = rw known

  accepted :
      (write_by_name K name watts root).0 ≡ ok tt
      → write_by_name K name watts root ≡ write K (current_file name) (show watts) root
  accepted h = elim (Bool-cases (in_range info watts)) [
    | inl b ↦ write_by_name_lem ∙ rw b
    | inr b ↦ cc (rw (write_by_name_lem, b) at h)
  ]

  -- Where the current value is an attribute that keeps what is written, a `u32` whose write
  -- succeeds is the current value that is read afterwards, and the attribute keeps its key, its
  -- name, its default, its range and its step.
  pub read_by_name-write_by_name :
      (write_by_name K name watts root).0 ≡ ok tt
      → read_by_name (write_by_name K name watts root).1 name ≡ ok (record info { current = watts })
  read_by_name-write_by_name h =
      let w = accepted h in
      let keeps = λ (file : String) (ne : file ≢ "current_value").
        keeps_files-write K (current_file name) (show watts) root A (attr_file name file)
          (current_file-ne name file ne) in
      rw w (
        read_by_name_cong root (write K (current_file name) (show watts) root).1 name watts info
          (unfold exists in
            keeps_paths-write K (current_file name) (show watts) root A (current_file name))
          (read_parsed-write K (current_file name) watts root A fits (rw w at h))
          (keeps "display_name" (ne_of_test "display_name" "current_value" refl))
          (keeps "default_value" (ne_of_test "default_value" "current_value" refl))
          (keeps "min_value" (ne_of_test "min_value" "current_value" refl))
          (keeps "max_value" (ne_of_test "max_value" "current_value" refl))
          (keeps "scalar_increment" (ne_of_test "scalar_increment" "current_value" refl)) known)
