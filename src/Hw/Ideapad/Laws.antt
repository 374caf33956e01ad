-- ===== src/Hw/Ideapad/Laws.antt =====
-- Toggles and fan modes: what is written is read back.
use legion_linux_toolkit_rus.Prelude.{
  ℕ, ◌<◌, String, Bool, ◌≡◌, ◌≢◌, ◌↔◌, refl, true, false, some, arith, find, find-some, ◌=?◌,
}
use mathlib.Core.Option
use legion_linux_toolkit_rus.Prelude.Result.{ok, ok_or-ok}
use legion_linux_toolkit_rus.Text.{is_whitespace, parse_unsigned}
use legion_linux_toolkit_rus.Text.Trim.{NoSpace}
use legion_linux_toolkit_rus.Text.Append.{append-ne, ne_of_test}
use legion_linux_toolkit_rus.Hw.Sysfs.{Sysfs, Kernel, u32, write, read_parsed_opt}
use legion_linux_toolkit_rus.Hw.Sysfs.Laws.{
  IsAttribute, read-write, read_parsed-write, keeps_files-write, read_parsed_opt_cong,
}
use legion_linux_toolkit_rus.Hw.Ideapad.{
  Toggle, fn_lock, camera_power, usb_charging, conservation_mode, attr, dev, toggle_file, get, set,
  is_set, bit, FanMode, super_silent, standard, dust_cleaning, efficient_thermal_dissipation, all,
  value, from_value, fan_mode_file, get_fan_mode, set_fan_mode,
}

bit-NoSpace : (on : Bool) → NoSpace (bit on)
unfolding is_whitespace
bit-NoSpace true = ground arith
bit-NoSpace false = ground arith

-- An attribute that keeps the bit written to it is read back as that bit.
pub bit-write :
    (K : Kernel) (rel : String) (on : Bool) (root : Sysfs)
    → IsAttribute K rel
    → (write K rel (bit on) root).0 ≡ ok tt
    → Option.map is_set (read_parsed_opt u32 (write K rel (bit on) root).1 rel) ≡ some on
unfolding read_parsed_opt parse_unsigned
bit-write K rel true root A h = rw (read-write K rel "1" root A (bit-NoSpace true) h)
bit-write K rel false root A h = rw (read-write K rel "0" root A (bit-NoSpace false) h)

attr-ne : (t u : Toggle) → t ≢ u → attr t ≢ attr u
unfolding attr
attr-ne fn_lock camera_power h = ne_of_test "fn_lock" "camera_power" refl
attr-ne fn_lock usb_charging h = ne_of_test "fn_lock" "usb_charging" refl
attr-ne fn_lock conservation_mode h = ne_of_test "fn_lock" "conservation_mode" refl
attr-ne camera_power fn_lock h = ne_of_test "camera_power" "fn_lock" refl
attr-ne camera_power usb_charging h = ne_of_test "camera_power" "usb_charging" refl
attr-ne camera_power conservation_mode h = ne_of_test "camera_power" "conservation_mode" refl
attr-ne usb_charging fn_lock h = ne_of_test "usb_charging" "fn_lock" refl
attr-ne usb_charging camera_power h = ne_of_test "usb_charging" "camera_power" refl
attr-ne usb_charging conservation_mode h = ne_of_test "usb_charging" "conservation_mode" refl
attr-ne conservation_mode fn_lock h = ne_of_test "conservation_mode" "fn_lock" refl
attr-ne conservation_mode camera_power h = ne_of_test "conservation_mode" "camera_power" refl
attr-ne conservation_mode usb_charging h = ne_of_test "conservation_mode" "usb_charging" refl
attr-ne fn_lock fn_lock h = absurd (h refl)
attr-ne camera_power camera_power h = absurd (h refl)
attr-ne usb_charging usb_charging h = absurd (h refl)
attr-ne conservation_mode conservation_mode h = absurd (h refl)

module _ (K : Kernel) (t : Toggle) (on : Bool) (root : Sysfs)
    (A : IsAttribute K (toggle_file t)) where
  -- Where its file is an attribute that keeps what is written, a toggle whose write succeeds reads
  -- as it was set, and no write of it changes what another toggle reads.
  pub get-set_toggle :
      ((set K t on root).0 ≡ ok tt → get (set K t on root).1 t ≡ some on)
      × ((u : Toggle) → u ≢ t → get (set K t on root).1 u ≡ get root u)
  get-set_toggle = (
    λ h. unfold get set in bit-write K (toggle_file t) on root A (unfold set in h),
    λ u ne.
        unfold get set in
        rw (
          read_parsed_opt_cong root (write K (toggle_file t) (bit on) root).1 (toggle_file u)
            (keeps_files-write K (toggle_file t) (bit on) root A (toggle_file u)
              (append-ne dev (append-ne "/" (attr-ne u t ne))))
            u32),
  )

value-find : (m : FanMode) → find (λ n. value n =? value m) all ≡ some m
unfolding value
value-find super_silent = refl
value-find standard = refl
value-find dust_cleaning = refl
value-find efficient_thermal_dissipation = refl

-- A number is a fan mode exactly when it is the value of that mode; so 3 is none.
pub from_value_iff : (v : ℕ) (m : FanMode) → (from_value v ≡ ok m) ↔ (v ≡ value m)
unfolding from_value
from_value_iff v m = (
  λ h.
      ground
        (arith, find-some (λ n. value n =? v) all m (ok_or-ok _ (find (λ n. value n =? v) all) h)),
  λ e. rw (e, value-find m),
)

value-lt : (m : FanMode) → value m < 4294967296
unfolding value
value-lt super_silent = omega arith
value-lt standard = omega arith
value-lt dust_cleaning = omega arith
value-lt efficient_thermal_dissipation = omega arith

-- Where `fan_mode` is an attribute that keeps what is written, a fan mode whose write succeeds is
-- read back.
pub get_fan_mode-set_fan_mode :
    (K : Kernel) (m : FanMode) (root : Sysfs)
    → IsAttribute K fan_mode_file
    → (set_fan_mode K m root).0 ≡ ok tt
    → get_fan_mode (set_fan_mode K m root).1 ≡ ok m
unfolding get_fan_mode set_fan_mode
get_fan_mode-set_fan_mode K m root A h =
    rw (read_parsed-write K fan_mode_file (value m) root A (value-lt m) h)
      ((from_value_iff (value m) m).1 refl)
