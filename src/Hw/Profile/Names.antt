-- ===== src/Hw/Profile/Names.antt =====
-- The names of the power modes: which texts each parser accepts, and as what.
use legion_linux_toolkit_rus.Prelude.{
  String, ◌≡◌, ◌↔◌, ◌⊎◌, refl, some, true, arith, eq_iff, find, find-some, inl, inr,
}
use legion_linux_toolkit_rus.Prelude.Result.{ok, ok_or-ok}
use legion_linux_toolkit_rus.Text.{trim, to_ascii_lowercase, is_whitespace}
use legion_linux_toolkit_rus.Hw.Profile.{
  PowerProfile, quiet, balanced, performance, extreme, custom, all, as_sysfs, label, from_sysfs,
  from_user, spelled,
}

-- The kernel's text for a mode is read as that mode.
pub from_sysfs-as_sysfs : (p : PowerProfile) → from_sysfs (as_sysfs p) ≡ ok p
unfolding from_sysfs
from_sysfs-as_sysfs quiet = refl
from_sysfs-as_sysfs balanced = refl
from_sysfs-as_sysfs performance = refl
from_sysfs-as_sysfs extreme = refl
from_sysfs-as_sysfs custom = refl

-- No other text is.
pub from_sysfs-exact : (s : String) (p : PowerProfile) → from_sysfs s ≡ ok p → s ≡ as_sysfs p
unfolding from_sysfs
from_sysfs-exact s p h = ground (
  arith,
  eq_iff "low-power" s,
  eq_iff "balanced" s,
  eq_iff "performance" s,
  eq_iff "max-power" s,
  eq_iff "custom" s,
)

-- The spellings of a mode that a user may give, once trimmed and in lower case.
abbrev pub Spells : PowerProfile → String → Type 0
Spells p t = (t ≡ as_sysfs p) ⊎ (t ≡ to_ascii_lowercase (label p))

spelled-Spells : (t : String) (p : PowerProfile) → spelled t p ≡ true → Spells p t
unfolding spelled
spelled-Spells t p h =
    ground (arith, eq_iff (as_sysfs p) t, eq_iff (to_ascii_lowercase (label p)) t)

find-as_sysfs : (p : PowerProfile) → find (spelled (as_sysfs p)) all ≡ some p
unfolding spelled
find-as_sysfs quiet = refl
find-as_sysfs balanced = refl
find-as_sysfs performance = refl
find-as_sysfs extreme = refl
find-as_sysfs custom = refl

find-label : (p : PowerProfile) → find (spelled (to_ascii_lowercase (label p))) all ≡ some p
unfolding spelled
find-label quiet = refl
find-label balanced = refl
find-label performance = refl
find-label extreme = refl
find-label custom = refl

from_user_complete : (t : String) (p : PowerProfile) → Spells p t → find (spelled t) all ≡ some p
from_user_complete t p (inl e) = rw e (find-as_sysfs p)
from_user_complete t p (inr e) = rw e (find-label p)

-- A user's text is read as a mode exactly when, trimmed and in lower case, it is the kernel's text
-- for the mode or the label of the mode in lower case.
pub from_user_iff :
    (s : String) (p : PowerProfile) → (from_user s ≡ ok p) ↔ Spells p (to_ascii_lowercase (trim s))
unfolding from_user
from_user_iff s p =
    let t = to_ascii_lowercase (trim s) in
    (
      λ h. spelled-Spells t p (find-some (spelled t) all p (ok_or-ok _ (find (spelled t) all) h)),
      λ h. rw (from_user_complete t p h),
    )

-- A user may give the kernel's text for a mode.
pub from_user-as_sysfs : (p : PowerProfile) → from_user (as_sysfs p) ≡ ok p
unfolding from_user is_whitespace
from_user-as_sysfs quiet = refl
from_user-as_sysfs balanced = refl
from_user-as_sysfs performance = refl
from_user-as_sysfs extreme = refl
from_user-as_sysfs custom = refl
