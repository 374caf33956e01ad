-- ===== src/Hw/Sysfs.antt =====
-- crates/legion-hw/src/sysfs.rs. `SysRoot` is a handle on the files below a root; the model has
-- in its place what those files answer, with paths relative to the root, and the kernel, which
-- decides what a write does, is a parameter of the operations that write.
pub mod Laws
use legion_linux_toolkit_rus.Prelude.{
  ℕ, String, Bool, false, not, Option, none, some, List, [], ◌∷◌, ◌==◌, if◌then◌else◌,
}
use legion_linux_toolkit_rus.Prelude.Result.{Result, ok, err, ◌>>=◌, to_option, map_ok, map_err}
use legion_linux_toolkit_rus.Text.{◌<>◌, trim, parse_unsigned}
use legion_linux_toolkit_rus.Text.Sort.{sort}
use legion_linux_toolkit_rus.Hw.Error.{IoError, HwError, HwResult, plain, quoted, from_io}

-- What the files below the root answer at one moment: `fs::read_to_string`, `Path::exists` and
-- `fs::read_dir` (the names in the order of the kernel).
pub record Sysfs : Type 0 where
  pub read_file : String → Result IoError String
  pub has_path : String → Bool
  pub read_dir : String → Result IoError (List String)

-- `fs::write`: the outcome, and what the files answer afterwards.
abbrev pub Kernel : Type 0
Kernel = Sysfs → String → String → Result IoError (Unit {0}) × Sysfs

-- An operation that may write.
abbrev pub Action : Type 0
Action = Sysfs → HwResult (Unit {0}) × Sysfs

unfoldable pub read : Sysfs → String → HwResult String
read root rel = map_ok trim (map_err from_io (root.read_file rel))

unfoldable pub read_opt : Sysfs → String → Option String
unfolding read
read_opt root rel = to_option (read root rel)

-- `raw.parse::<T>().map_err(…)`
abbrev pub parsed : {A : Type 0} → String → String → Option A → Result HwError A
parsed rel raw none = err (HwError.parse (plain rel ∷ plain ": " ∷ quoted raw ∷ []))
parsed rel raw (some a) = ok a

module _ {A : Type 0} (from_str : String → Option A) where
  unfoldable pub read_parsed : Sysfs → String → HwResult A
  unfolding read
  read_parsed root rel = read root rel >>= λ raw. parsed rel raw (from_str raw)

  unfoldable pub read_parsed_opt : Sysfs → String → Option A
  unfolding read_parsed
  read_parsed_opt root rel = to_option (read_parsed root rel)

-- The two instances of `FromStr` that the crate reads numbers by.
abbrev pub u32 : String → Option ℕ
u32 = parse_unsigned 4294967296

abbrev pub u64 : String → Option ℕ
u64 = parse_unsigned 18446744073709551616

unfoldable pub exists : Sysfs → String → Bool
exists root rel = root.has_path rel

unfoldable pub write : Kernel → String → String → Action
write K rel value root =
    if not (root.has_path rel)
    then (err HwError.not_supported, root)
    else let (r, root') = K root rel value in (map_err from_io r, root')

abbrev entries : Result IoError (List String) → List String
entries (ok names) = names
entries (err e) = []

unfoldable pub list_dir : Sysfs → String → List String
unfolding sort
list_dir root rel = sort (entries (root.read_dir rel))

-- The `name` file of a hwmon device reads `wanted`.
abbrev pub is_named : String → Option String → Bool
is_named wanted none = false
is_named wanted (some name) = name == wanted

-- The loop of `find_hwmon` over the entries left.
hwmon_among : Sysfs → String → List String → Option String
unfolding read_opt
hwmon_among root wanted [] = none
hwmon_among root wanted (entry ∷ rest) =
    let rel = "sys/class/hwmon/" <> entry in
    if is_named wanted (read_opt root (rel <> "/name"))
    then some rel
    else hwmon_among root wanted rest

unfoldable pub find_hwmon : Sysfs → String → Option String
unfolding hwmon_among list_dir
find_hwmon root wanted = hwmon_among root wanted (list_dir root "sys/class/hwmon")
