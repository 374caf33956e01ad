-- ===== src/Hw/FirmwareAttrs/Others.antt =====
-- A write of one power limit leaves the others as they are.
use Prim.Native.String.{[], ◌∷◌}
use legion_linux_toolkit_rus.Prelude.{
  ℕ, zero, suc, String, code, ◌≡◌, ◌≢◌, refl, ap, arith, inl, inr,
}
use legion_linux_toolkit_rus.Text.Decimal.{show}
use legion_linux_toolkit_rus.Hw.Sysfs.{Sysfs, Kernel, u32, read_parsed, read, exists}
use legion_linux_toolkit_rus.Hw.Sysfs.Laws.{IsAttribute, read_opt_cong, read_parsed_opt_cong}
use legion_linux_toolkit_rus.Hw.FirmwareAttrs.{
  PptAttr, spl, sppt, fppt, dir_name, attr_file, read_by_name, read_attr, write_attr,
}
use legion_linux_toolkit_rus.Hw.FirmwareAttrs.Writes.{current_file, write_by_name-guarded}

-- Two states of the files that agree on an attribute.
record SameAttr (r s : Sysfs) (name : String) : Type 0 where
  files : (f : String) → s.read_file (attr_file name f) ≡ r.read_file (attr_file name f)
  path : s.has_path (current_file name) ≡ r.has_path (current_file name)

read_by_name-SameAttr :
    (r s : Sysfs) (name : String) → SameAttr r s name → read_by_name s name ≡ read_by_name r name
unfolding read_by_name exists read_parsed read
read_by_name-SameAttr r s name h =
    rw
      (
        h.path,
        h.files "current_value",
        read_opt_cong r s (attr_file name "display_name") (h.files "display_name"),
        read_parsed_opt_cong r s (attr_file name "default_value") (h.files "default_value") u32,
        read_parsed_opt_cong r s (attr_file name "min_value") (h.files "min_value") u32,
        read_parsed_opt_cong r s (attr_file name "max_value") (h.files "max_value") u32,
        read_parsed_opt_cong r s (attr_file name "scalar_increment") (h.files "scalar_increment")
            u32,
      )
      refl

code_at : ℕ → String → ℕ
code_at i [] = 0
code_at zero (c ∷ s) = code c
code_at (suc i) (c ∷ s) = code_at i s

-- The files of a limit are none that a write of another limit goes to.
other_file :
    (a b : PptAttr) → a ≢ b → (f : String) → attr_file (dir_name a) f ≢ current_file (dir_name b)
unfolding code_at dir_name
other_file spl spl ne f e = ne refl
other_file sppt sppt ne f e = ne refl
other_file fppt fppt ne f e = ne refl
other_file spl sppt ne f e = let x : 49 ≡ 50 = ap (code_at 66) e in omega (arith, x)
other_file spl fppt ne f e = let x : 49 ≡ 51 = ap (code_at 66) e in omega (arith, x)
other_file sppt spl ne f e = let x : 50 ≡ 49 = ap (code_at 66) e in omega (arith, x)
other_file sppt fppt ne f e = let x : 50 ≡ 51 = ap (code_at 66) e in omega (arith, x)
other_file fppt spl ne f e = let x : 51 ≡ 49 = ap (code_at 66) e in omega (arith, x)
other_file fppt sppt ne f e = let x : 51 ≡ 50 = ap (code_at 66) e in omega (arith, x)

-- A write of another limit, whatever comes of it, leaves a limit that keeps what is written to it.
pub read_attr-write_attr_other :
    (K : Kernel) (a b : PptAttr) (watts : ℕ) (root : Sysfs)
    → IsAttribute K (current_file (dir_name b))
    → a ≢ b
    → read_attr (write_attr K b watts root).1 a ≡ read_attr root a
unfolding read_attr write_attr
read_attr-write_attr_other K a b watts root A ne =
    elim (write_by_name-guarded K (dir_name b) watts root) [
      | inl same ↦ rw same refl
      | inr reached ↦ rw reached.left (
          read_by_name-SameAttr root _ (dir_name a) (record {
            files = λ f.
                A.keeps_files root (show watts) (attr_file (dir_name a) f) (other_file a b ne f);
            path = A.keeps_paths root (show watts) (current_file (dir_name a));
          }))
    ]
