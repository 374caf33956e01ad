-- ===== src/Gui/Slider.antt =====
-- crates/legion-gui/src/state.rs: `SliderBounds`. Its fields are `i32`; a panic is `none`.
pub mod Bounds
use legion_linux_toolkit_rus.Prelude.{
  ℕ, zero, suc, ◌-◌, String, Bool, true, false, Option, none, some, List, ◌==◌, ◌=?◌, ltb, leb,
  if◌then◌else◌, find,
}
use legion_linux_toolkit_rus.Hw.FirmwareAttrs.{AttrInfo}

-- The integers; an `i32` is one from -2 ^ 31 to 2 ^ 31 - 1.
pub data ℤ : Type 0 where
  pos negsuc : ℕ → ℤ

abbrev pub lebℤ : ℤ → ℤ → Bool
lebℤ (pos m) (pos n) = leb m n
lebℤ (pos m) (negsuc n) = false
lebℤ (negsuc m) (pos n) = true
lebℤ (negsuc m) (negsuc n) = leb n m

-- `n as i32` of a `u32`
unfoldable pub as_i32 : ℕ → ℤ
as_i32 n = if ltb n 2147483648 then pos n else negsuc (4294967295 - n)

-- `i32::saturating_add(1)`
unfoldable pub saturating_suc : ℤ → ℤ
saturating_suc (pos n) = if n =? 2147483647 then pos n else pos (suc n)
saturating_suc (negsuc zero) = pos 0
saturating_suc (negsuc (suc n)) = negsuc n

-- `Ord::clamp`, which panics unless `min <= max`
unfoldable pub clamp : ℤ → ℤ → ℤ → Option ℤ
clamp value min max =
    if lebℤ min max
    then some (if lebℤ value min then min else if lebℤ max value then max else value)
    else none

pub record SliderBounds : Type 0 where
  pub value : ℤ
  pub min : ℤ
  pub max : ℤ

-- `SliderBounds::default()`
abbrev pub default : SliderBounds
default = record { value = pos 0; min = pos 0; max = pos 0 }

abbrev pub upper : AttrInfo → ℤ
upper a = if ltb a.min a.max then as_i32 a.max else saturating_suc (as_i32 a.min)

abbrev pub bounded : Option ℤ → ℤ → ℤ → Option SliderBounds
bounded none min max = none
bounded (some v) min max = some (record { value = v; min = min; max = max })

unfoldable pub from_attr : AttrInfo → Option SliderBounds
unfolding as_i32 saturating_suc clamp
from_attr a = bounded (clamp (as_i32 a.current) (as_i32 a.min) (upper a)) (as_i32 a.min) (upper a)

abbrev or_default : Option AttrInfo → Option SliderBounds
or_default none = some default
or_default (some a) = from_attr a

-- `SliderBounds::find`
unfoldable pub find_bounds : List AttrInfo → String → Option SliderBounds
unfolding from_attr
find_bounds attrs key = or_default (find (λ (a : AttrInfo). a.key == key) attrs)
