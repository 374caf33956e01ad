-- ===== src/Tests/Machine.antt =====
-- The files of a machine, kernels that keep what is written, and the laws they satisfy.
use legion_linux_toolkit_rus.Prelude.{
  ℕ, ◌*◌, ◌/◌, String, false, Option, none, some, List, [], ◌∷◌, ◌≡◌, ◌≢◌, refl, any, ◌==◌, eq_refl,
  eq_iff, if◌then◌else◌, Bool-cases, inl, inr, find,
}
use legion_linux_toolkit_rus.Prelude.Float.{Floats}
use legion_linux_toolkit_rus.Prelude.Result.{Result, ok, err}
use legion_linux_toolkit_rus.Text.{◌<>◌}
use legion_linux_toolkit_rus.Text.Decimal.{show}
use legion_linux_toolkit_rus.Hw.Error.{IoError, ErrorKind}
use legion_linux_toolkit_rus.Hw.Sysfs.{Sysfs, Kernel}
use legion_linux_toolkit_rus.Hw.Sysfs.Laws.{IsAttribute}
use legion_linux_toolkit_rus.Hw.Battery
use legion_linux_toolkit_rus.Hw.Battery.{ChargeMode}
use legion_linux_toolkit_rus.Hw.Battery.Parse.{charge_line}
use legion_linux_toolkit_rus.Hw.Battery.RoundTrip.{mark, ShowsSelection}

abbrev pub missing : IoError
missing = record {
  kind = ErrorKind.not_found;
  raw_os_error = none;
  message = "No such file or directory (os error 2)";
}

abbrev lookup : {A : Type 0} → String → List (String × A) → Result IoError A
lookup q [] = err missing
lookup q ((p, a) ∷ rest) = let more = lookup q rest in if p == q then ok a else more

-- The files of a table, with the directories of another.
abbrev pub tree : List (String × String) → List (String × List String) → Sysfs
tree files dirs = record {
  read_file = λ q. lookup q files;
  has_path = λ q. any (λ f. f.0 == q) files;
  read_dir = λ q. lookup q dirs;
}

abbrev pub device : String
device = "sys/class/platform-profile/platform-profile-1"

abbrev pub attrs : String
attrs = "sys/class/firmware-attributes/lenovo-wmi-other-0/attributes"

abbrev pub files : List (String × String)
files =
    (device <> "/name", "lenovo-wmi-gamezone\n")
    ∷ (device <> "/profile", "custom\n")
    ∷ (device <> "/choices", "low-power balanced custom\n")
    ∷ ("sys/class/platform-profile/platform-profile-0/name", "amd-pmf\n")
    ∷ (attrs <> "/ppt_pl1_spl/current_value", "70\n")
    ∷ (attrs <> "/ppt_pl1_spl/min_value", "15\n")
    ∷ (attrs <> "/ppt_pl1_spl/max_value", "115\n")
    ∷ (attrs <> "/gpu_temp/current_value", "87\n")
    ∷ ("sys/class/power_supply/BAT0/charge_types", "Standard [Fast] Long_Life\n")
    ∷ ("sys/bus/platform/devices/VPC2004:00/fn_lock", "0\n")
    ∷ ("sys/bus/platform/devices/VPC2004:00/fan_mode", "1\n")
    ∷ ("sys/class/leds/platform::kbd_backlight/brightness", "1\n")
    ∷ ("sys/class/leds/platform::kbd_backlight/max_brightness", "2\n")
    ∷ ("sys/devices/system/cpu/cpufreq/boost", "1\n")
    ∷ []

abbrev pub dirs : List (String × List String)
dirs =
    ("sys/class/platform-profile", "platform-profile-1" ∷ "platform-profile-0" ∷ [])
    ∷ (attrs, "ppt_pl1_spl" ∷ "gpu_temp" ∷ [])
    ∷ []

abbrev pub machine : Sysfs
machine = tree files dirs

-- A file replaced by another text.
abbrev pub put : Sysfs → String → String → Sysfs
put root rel text = record root { read_file = λ q. if q == rel then ok text else root.read_file q }

-- A kernel that accepts every write and keeps the value.
abbrev pub keeping : Kernel
keeping root rel v = (ok tt, put root rel (v <> "\n"))

pub test-false : (q rel : String) → q ≢ rel → (q == rel) ≡ false
test-false q rel ne = elim (Bool-cases (q == rel)) [
  | inl b ↦ absurd (ne ((eq_iff q rel).0 b))
  | inr b ↦ b
]

pub keeps_other :
    (root : Sysfs) (rel v q : String)
    → q ≢ rel
    → (keeping root rel v).1.read_file q ≡ root.read_file q
keeps_other root rel v q ne = rw (test-false q rel ne) refl

pub keeping-IsAttribute : (rel : String) → IsAttribute keeping rel
keeping-IsAttribute rel = record {
  reads_back = λ root v h. rw (eq_refl rel) refl;
  keeps_files = λ root v q ne. keeps_other root rel v q ne;
  keeps_dirs = λ root v d. refl;
  keeps_paths = λ root v q. refl;
}

abbrev selection : Sysfs → String → Option ChargeMode → Result IoError (Unit {0}) × Sysfs
selection root rel none = (err missing, root)
selection root rel (some m) = (ok tt, put root rel (charge_line (mark m Battery.all)))

-- A kernel that shows the selected charge mode in brackets.
abbrev pub selecting : Kernel
selecting root rel v = selection root rel (find (λ m. Battery.as_sysfs m == v) Battery.all)

pub selecting-ShowsSelection : ShowsSelection selecting Battery.all
unfolding Battery.as_sysfs
selecting-ShowsSelection = record { shows = λ root m h. shown root m }
  where
    shown :
        (root : Sysfs) (m : ChargeMode)
        → (selecting root Battery.charge_file (Battery.as_sysfs m)).1.read_file Battery.charge_file
          ≡ ok (charge_line (mark m Battery.all))
    shown root Battery.standard = refl
    shown root Battery.fast = refl
    shown root Battery.long_life = refl

-- A parameter for `f64` that computes on whole numbers.
abbrev pub whole : Floats
whole = record {
  F64 = ℕ;
  of_u64 = λ n. n;
  divide = λ a b. a / b;
  multiply = λ a b. a * b;
  parse_f64 = λ s. none;
  show_fixed = λ n x. show x;
}
