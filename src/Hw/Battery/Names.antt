-- ===== src/Hw/Battery/Names.antt =====
-- The names of the charge modes: which texts each parser accepts, and as what.
use legion_linux_toolkit_rus.Prelude.{
  String, ◌≡◌, ◌↔◌, ◌⊎◌, inl, inr, refl, some, true, arith, eq_iff, find, find-some,
}
use legion_linux_toolkit_rus.Prelude.Result.{ok, ok_or-ok}
use legion_linux_toolkit_rus.Text.{to_ascii_lowercase, replace_chars, is_whitespace}
use legion_linux_toolkit_rus.Hw.Battery.{
  ChargeMode, standard, fast, long_life, all, as_sysfs, key, is_dash, is_underscore, normal,
  spelled, from_sysfs, from_user,
}

pub from_sysfs-as_sysfs : (m : ChargeMode) → from_sysfs (as_sysfs m) ≡ ok m
unfolding from_sysfs is_whitespace
from_sysfs-as_sysfs standard = refl
from_sysfs-as_sysfs fast = refl
from_sysfs-as_sysfs long_life = refl

-- The key of a mode without its dash.
abbrev pub squeezed : ChargeMode → String
squeezed m = replace_chars is_dash (key m) ""

-- The kernel's text with dashes, in lower case, is the key.
kernel_key :
    (m : ChargeMode) → replace_chars is_underscore (to_ascii_lowercase (as_sysfs m)) "-" ≡ key m
unfolding as_sysfs key to_ascii_lowercase replace_chars
kernel_key standard = refl
kernel_key fast = refl
kernel_key long_life = refl

abbrev pub Spells : ChargeMode → String → Type 0
Spells m t = (t ≡ key m) ⊎ (t ≡ squeezed m)

spelled-Spells : (t : String) (m : ChargeMode) → spelled t m ≡ true → Spells m t
unfolding spelled
spelled-Spells t m h = ground (
  arith,
  kernel_key m,
  eq_iff (key m) t,
  eq_iff (replace_chars is_underscore (to_ascii_lowercase (as_sysfs m)) "-") t,
  eq_iff (squeezed m) t,
)

find-key : (m : ChargeMode) → find (spelled (key m)) all ≡ some m
unfolding spelled
find-key standard = refl
find-key fast = refl
find-key long_life = refl

find-squeezed : (m : ChargeMode) → find (spelled (squeezed m)) all ≡ some m
unfolding spelled
find-squeezed standard = refl
find-squeezed fast = refl
find-squeezed long_life = refl

find_of_Spells : (t : String) (m : ChargeMode) → Spells m t → find (spelled t) all ≡ some m
find_of_Spells t m (inl e) = rw e (find-key m)
find_of_Spells t m (inr e) = rw e (find-squeezed m)

-- A user's text is read as a mode exactly when its normal form (trimmed, in lower case, with `_`
-- and spaces for dashes) is the key of the mode, with its dash or without.
pub from_user_iff_mode : (s : String) (m : ChargeMode) → (from_user s ≡ ok m) ↔ Spells m (normal s)
unfolding from_user
from_user_iff_mode s m =
    let t = normal s in
    (
      λ h. spelled-Spells t m (find-some (spelled t) all m (ok_or-ok _ (find (spelled t) all) h)),
      λ h. rw (find_of_Spells t m h),
    )

-- A user may give the kernel's text for a mode.
pub from_user-as_sysfs_mode : (m : ChargeMode) → from_user (as_sysfs m) ≡ ok m
unfolding from_user is_whitespace
from_user-as_sysfs_mode standard = refl
from_user-as_sysfs_mode fast = refl
from_user-as_sysfs_mode long_life = refl
