-- ===== src/Hw/Sysfs/Laws.antt =====
-- What the kernel documents of a sysfs attribute that keeps the value written to it, and what
-- reads through `SysRoot` then give.
use legion_linux_toolkit_rus.Prelude.{
  ℕ, ◌<◌, String, ◌≡◌, ◌≢◌, true, Option, arith, Bool-cases, ◌⊎◌, inl, inr,
}
use legion_linux_toolkit_rus.Prelude.Result.{ok}
use legion_linux_toolkit_rus.Text.{◌<>◌}
use legion_linux_toolkit_rus.Text.Trim.{NoSpace, trim-line}
use legion_linux_toolkit_rus.Text.Decimal.{show}
use legion_linux_toolkit_rus.Text.Decimal.Parse.{parse_unsigned-show, show-NoSpace}
use legion_linux_toolkit_rus.Hw.Sysfs.{
  Sysfs, Kernel, u32, read, read_opt, read_parsed, read_parsed_opt, write,
}

-- The attribute `rel` keeps what is written to it, ended by a line feed, and a write to it
-- changes no other file and no directory.
pub record IsAttribute (K : Kernel) (rel : String) : Type 0 where
  pub reads_back :
      (root : Sysfs) (v : String)
      → (K root rel v).0 ≡ ok tt
      → (K root rel v).1.read_file rel ≡ ok (v <> "\n")
  pub keeps_files :
      (root : Sysfs) (v q : String) → q ≢ rel → (K root rel v).1.read_file q ≡ root.read_file q
  pub keeps_dirs : (root : Sysfs) (v d : String) → (K root rel v).1.read_dir d ≡ root.read_dir d
  pub keeps_paths : (root : Sysfs) (v q : String) → (K root rel v).1.has_path q ≡ root.has_path q

module _ (K : Kernel) (rel v : String) (root : Sysfs) where
  -- A write that succeeds found the file, was accepted by the kernel, and left its files.
  pub write-ok :
      (write K rel v root).0 ≡ ok tt
      → (root.has_path rel ≡ true)
        × ((K root rel v).0 ≡ ok tt)
        × ((write K rel v root).1 ≡ (K root rel v).1)
  unfolding write
  write-ok h = ground arith

  -- Whatever comes of it, a write leaves the files alone or leaves what the kernel made of them.
  pub write-left : ((write K rel v root).1 ≡ root) ⊎ ((write K rel v root).1 ≡ (K root rel v).1)
  unfolding write
  write-left = elim (Bool-cases (root.has_path rel)) [ inl b ↦ inr (rw b) | inr b ↦ inl (rw b) ]

  module _ (A : IsAttribute K rel) where
    pub read-write :
        NoSpace v → (write K rel v root).0 ≡ ok tt → read (write K rel v root).1 rel ≡ ok v
    unfolding read
    read-write w h = let f = write-ok h in rw (f.2, A.reads_back root v f.1, trim-line v w)

    -- Whatever comes of it, a write keeps the other files and the directories.
    pub keeps_files-write :
        (q : String) → q ≢ rel → (write K rel v root).1.read_file q ≡ root.read_file q
    unfolding write
    keeps_files-write q ne = ground (arith, A.keeps_files root v q ne)

    pub keeps_dirs-write : (d : String) → (write K rel v root).1.read_dir d ≡ root.read_dir d
    unfolding write
    keeps_dirs-write d = ground (arith, A.keeps_dirs root v d)

    pub keeps_paths-write : (q : String) → (write K rel v root).1.has_path q ≡ root.has_path q
    unfolding write
    keeps_paths-write q = ground (arith, A.keeps_paths root v q)

module _ (K : Kernel) (rel : String) (n : ℕ) (root : Sysfs) (A : IsAttribute K rel) where
  -- A number written in decimal is read back as the number.
  pub read_parsed-write :
      n < 4294967296
      → (write K rel (show n) root).0 ≡ ok tt
      → read_parsed u32 (write K rel (show n) root).1 rel ≡ ok n
  unfolding read_parsed
  read_parsed-write fits h =
      rw
        (read-write K rel (show n) root A (show-NoSpace n) h, parse_unsigned-show 4294967296 n fits)

-- Reads depend on the contents of the one file.
module _ (r s : Sysfs) (q : String) (same : s.read_file q ≡ r.read_file q) where
  pub read_opt_cong : read_opt s q ≡ read_opt r q
  unfolding read_opt
  read_opt_cong = rw same

  pub read_parsed_opt_cong :
      {A : Type 0} (from_str : String → Option A)
      → read_parsed_opt from_str s q ≡ read_parsed_opt from_str r q
  unfolding read_parsed_opt
  read_parsed_opt_cong from_str = rw same
