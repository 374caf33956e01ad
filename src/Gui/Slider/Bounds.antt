-- ===== src/Gui/Slider/Bounds.antt =====
-- When the slider of a limit holds its value, and when the window panics.
use legion_linux_toolkit_rus.Prelude.{
  ℕ, suc, ◌≤◌, ◌<◌, String, true, Option, none, some, ◌≡◌, refl, arith, ltb, leb, ◌=?◌,
  if◌then◌else◌,
}
use legion_linux_toolkit_rus.Prelude.Result.{ok}
use legion_linux_toolkit_rus.Hw.Sysfs.{Sysfs, u32, read_parsed_opt}
use legion_linux_toolkit_rus.Hw.FirmwareAttrs.{AttrInfo, attr_file, in_range, read_by_name}
use legion_linux_toolkit_rus.Gui.Slider.{
  pos, negsuc, as_i32, saturating_suc, clamp, upper, SliderBounds, from_attr,
}

-- The slider of a limit whose numbers are below 2 ^ 31 starts at its minimum, ends at the
-- maximum of the firmware, or just above the minimum where the range is empty, and stands inside;
-- at the current value, where that is in range.
pub record IsSlider (a : AttrInfo) (b : Option SliderBounds) : Type 0 where
  pub value : ℕ
  pub max : ℕ
  pub shown : b ≡ some (record { value = pos value; min = pos a.min; max = pos max })
  pub above : a.min ≤ value
  pub below : value ≤ max
  pub fits : max < 2147483648
  pub exact : in_range a a.current ≡ true → value ≡ a.current

as_i32-pos : (n : ℕ) → n < 2147483648 → as_i32 n ≡ pos n
unfolding as_i32
as_i32-pos n h = ground arith

clamp_ℕ : ℕ → ℕ → ℕ → ℕ
clamp_ℕ v lo hi = if leb v lo then lo else if leb hi v then hi else v

clamp-pos : (v lo hi : ℕ) → lo ≤ hi → clamp (pos v) (pos lo) (pos hi) ≡ some (pos (clamp_ℕ v lo hi))
unfolding clamp clamp_ℕ
clamp-pos v lo hi h = ground arith

upper_ℕ : AttrInfo → ℕ
upper_ℕ a = if ltb a.min a.max then a.max else if a.min =? 2147483647 then a.min else suc a.min

upper-pos : (a : AttrInfo) → a.min < 2147483648 → a.max < 2147483648 → upper a ≡ pos (upper_ℕ a)
unfolding upper_ℕ as_i32 saturating_suc
upper-pos a lo hi = ground arith

upper-above : (a : AttrInfo) → a.min ≤ upper_ℕ a
unfolding upper_ℕ
upper-above a = ground arith

upper-fits : (a : AttrInfo) → a.min < 2147483648 → a.max < 2147483648 → upper_ℕ a < 2147483648
unfolding upper_ℕ
upper-fits a lo hi = ground arith

clamp-above : (v lo hi : ℕ) → lo ≤ hi → lo ≤ clamp_ℕ v lo hi
unfolding clamp_ℕ
clamp-above v lo hi h = ground arith

clamp-below : (v lo hi : ℕ) → lo ≤ hi → clamp_ℕ v lo hi ≤ hi
unfolding clamp_ℕ
clamp-below v lo hi h = ground arith

upper-exact :
    (a : AttrInfo) → in_range a a.current ≡ true → clamp_ℕ a.current a.min (upper_ℕ a) ≡ a.current
unfolding clamp_ℕ upper_ℕ in_range
upper-exact a h = ground arith

-- An attribute whose numbers are below 2 ^ 31 gives a slider that has its value inside its ends,
-- exactly the current one where the firmware's range holds it, and no panic.
pub from_attr-IsSlider :
    (a : AttrInfo)
    → a.min < 2147483648
    → a.max < 2147483648
    → a.current < 2147483648
    → IsSlider a (from_attr a)
unfolding from_attr
from_attr-IsSlider a lo hi cur = record {
  value = clamp_ℕ a.current a.min (upper_ℕ a);
  max = upper_ℕ a;
  shown =
      rw
        (
          as_i32-pos a.current cur,
          upper-pos a lo hi,
          as_i32-pos a.min lo,
          clamp-pos a.current a.min (upper_ℕ a) (upper-above a),
        )
        refl;
  above = clamp-above a.current a.min (upper_ℕ a) (upper-above a);
  below = clamp-below a.current a.min (upper_ℕ a) (upper-above a);
  fits = upper-fits a lo hi;
  exact = upper-exact a;
}

max_of-none :
    (root : Sysfs) (name : String) (info : AttrInfo)
    → read_by_name root name ≡ ok info
    → read_parsed_opt u32 root (attr_file name "max_value") ≡ none
    → info.max ≡ 4294967295
unfolding read_by_name
max_of-none root name info h e = ground (arith, e)

upper-unlimited : (a : AttrInfo) → a.max ≡ 4294967295 → a.min < 2147483648 → upper a ≡ negsuc 0
unfolding as_i32
upper-unlimited a m lo = ground (arith, m)

-- Where the firmware declares no maximum that can be read, and a minimum below 2 ^ 31, the slider
-- of the attribute that is read makes the window panic.
pub from_attr-no_maximum :
    (root : Sysfs) (name : String) (info : AttrInfo)
    → read_by_name root name ≡ ok info
    → read_parsed_opt u32 root (attr_file name "max_value") ≡ none
    → info.min < 2147483648
    → from_attr info ≡ none
unfolding from_attr clamp
from_attr-no_maximum root name info h e lo =
    rw (upper-unlimited info (max_of-none root name info h e) lo, as_i32-pos info.min lo) refl
