-- ===== src/Hw/FirmwareAttrs/Names.antt =====
-- The names of the power limits.
use legion_linux_toolkit_rus.Prelude.{
  String, ◌≡◌, ◌↔◌, ◌⊎◌, inl, inr, refl, some, true, arith, ◌==◌, ◌||◌, eq_iff, find, find-some,
}
use legion_linux_toolkit_rus.Prelude.Result.{ok, ok_or-ok}
use legion_linux_toolkit_rus.Text.{trim, to_ascii_lowercase}
use legion_linux_toolkit_rus.Hw.FirmwareAttrs.{
  PptAttr, spl, sppt, fppt, all, dir_name, key, from_key, short_key,
}

abbrev pub Spells : PptAttr → String → Type 0
Spells a t = (t ≡ key a) ⊎ (t ≡ dir_name a)

spelled-Spells : (t : String) (a : PptAttr) → (key a == t || dir_name a == t) ≡ true → Spells a t
spelled-Spells t a h = ground (arith, eq_iff (key a) t, eq_iff (dir_name a) t)

find-key : (a : PptAttr) → find (λ b. key b == key a || dir_name b == key a) all ≡ some a
unfolding key dir_name
find-key spl = refl
find-key sppt = refl
find-key fppt = refl

find-dir_name :
    (a : PptAttr) → find (λ b. key b == dir_name a || dir_name b == dir_name a) all ≡ some a
unfolding key dir_name
find-dir_name spl = refl
find-dir_name sppt = refl
find-dir_name fppt = refl

find_of_Spells :
    (t : String) (a : PptAttr) → Spells a t → find (λ b. key b == t || dir_name b == t) all ≡ some a
find_of_Spells t a (inl e) = rw e (find-key a)
find_of_Spells t a (inr e) = rw e (find-dir_name a)

-- A text is read as a power limit exactly when, trimmed and in lower case, it is the short key of
-- the limit or the name of its directory.
pub from_key_iff :
    (s : String) (a : PptAttr) → (from_key s ≡ ok a) ↔ Spells a (to_ascii_lowercase (trim s))
unfolding from_key
from_key_iff s a =
    let t = to_ascii_lowercase (trim s) in
    let test = λ (b : PptAttr). key b == t || dir_name b == t in
    (
      λ h. spelled-Spells t a (find-some test all a (ok_or-ok _ (find test all) h)),
      λ h. rw (find_of_Spells t a h),
    )

-- The key that an attribute is shown under is its short key, for the three known ones.
pub short_key-dir_name : (a : PptAttr) → short_key (dir_name a) ≡ key a
unfolding short_key
short_key-dir_name spl = refl
short_key-dir_name sppt = refl
short_key-dir_name fppt = refl
