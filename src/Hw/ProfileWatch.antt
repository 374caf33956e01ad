-- ===== src/Hw/ProfileWatch.antt =====
-- crates/legion-hw/src/profile_watch.rs: the file handle behind the detection of Fn+Q. What the
-- operating system answers to `open`, `seek` and `read_to_string` is an argument.
use legion_linux_toolkit_rus.Prelude.{String}
use legion_linux_toolkit_rus.Prelude.Result.{Result, ok, ok_or, map_err, ◌>>=◌, ◌>>◌}
use legion_linux_toolkit_rus.Text.{trim}
use legion_linux_toolkit_rus.Hw.Error.{IoError, HwError, HwResult, from_io}
use legion_linux_toolkit_rus.Hw.Sysfs.{Sysfs}
use legion_linux_toolkit_rus.Hw.Profile.{PowerProfile, profile_file, from_sysfs}
use legion_linux_toolkit_rus.Hw.Profile

-- The answers to one `seek` and one `read_to_string` on the handle.
pub record Reread : Type 0 where
  pub seek : Result IoError (Unit {0})
  pub content : Result IoError String

unfoldable pub consume : Reread → HwResult PowerProfile
unfolding from_io from_sysfs trim
consume r = do map_err from_io r.seek; buf ← map_err from_io r.content; from_sysfs (trim buf)

-- The path that is watched, once the handle is open and the first read has armed it.
unfoldable pub open_watch : Sysfs → (String → Result IoError (Unit {0})) → Reread → HwResult String
unfolding profile_file consume
open_watch root open_file first = do
  rel ← ok_or HwError.not_supported (profile_file root)
  map_err from_io (open_file rel)
  consume first
  ok rel

unfoldable pub current : Sysfs → HwResult PowerProfile
unfolding Profile.get
current root = Profile.get root
