-- ===== src/Hw/Profile/Device.antt =====
-- The discovery of the platform-profile device: by name, and the first device as the fallback.
use legion_linux_toolkit_rus.Prelude.{
  String, List, [], ◌∷◌, ◌≡◌, refl, ◌∙◌, true, Bool, Option, none, some, arith, find, first,
  find-some, find_of_any,
}
use legion_linux_toolkit_rus.Prelude.Result.{ok}
use legion_linux_toolkit_rus.Text.{◌<>◌}
use legion_linux_toolkit_rus.Text.Sort.{sort}
use legion_linux_toolkit_rus.Text.Sort.Members.{any-sort, Listed, any_of_Listed}
use legion_linux_toolkit_rus.Hw.Sysfs.{Sysfs, read_opt, list_dir, is_named}
use legion_linux_toolkit_rus.Hw.Profile.{class_dir, gamezone, device_among, device_dir}
use mathlib.Core.Option

abbrev pub dir_of : String → String
dir_of entry = class_dir <> "/" <> entry

-- The entry's `name` file reads the name of the upstream handler.
abbrev pub is_gamezone : Sysfs → String → Bool
is_gamezone root entry = is_named gamezone (read_opt root (dir_of entry <> "/name"))

-- The first of two options that holds something.
abbrev pub or_else : Option String → Option String → Option String
or_else none b = b
or_else (some a) b = some a

-- What the loop looks for: an entry of that name, else the first entry.
abbrev pub preferred : Sysfs → List String → Option String
preferred root names =
    or_else (Option.map dir_of (find (is_gamezone root) names)) (Option.map dir_of (first names))

device_among_lem :
    (root : Sysfs) (fallback : Option String) (names : List String)
    → device_among root fallback names
      ≡ or_else
          (Option.map dir_of (find (is_gamezone root) names))
          (or_else fallback (Option.map dir_of (first names)))
unfolding device_among
device_among_lem root none [] = refl
device_among_lem root (some f) [] = refl
device_among_lem root none (e ∷ es) = ground (arith, device_among_lem root (some (dir_of e)) es)
device_among_lem root (some f) (e ∷ es) = ground (arith, device_among_lem root (some f) es)

-- The scan returns the directory of the first entry in sorted order whose `name` is the upstream
-- handler's; where no entry has that name, the first entry; and nothing where there is no entry.
pub device_dir-preferred :
    (root : Sysfs) → device_dir root ≡ preferred root (list_dir root class_dir)
unfolding device_dir
device_dir-preferred root = device_among_lem root none (list_dir root class_dir)

-- Where exactly one listed entry carries the upstream name, the scan returns that entry, wherever
-- the kernel lists it and whatever other handlers are registered.
pub device_dir_of_gamezone :
    (root : Sysfs) (names : List String) (e : String)
    → root.read_dir class_dir ≡ ok names
    → Listed e names
    → is_gamezone root e ≡ true
    → ((f : String) → is_gamezone root f ≡ true → f ≡ e)
    → device_dir root ≡ some (dir_of e)
unfolding list_dir
device_dir_of_gamezone root names e listing listed named only =
    let found =
      find_of_any (is_gamezone root) (sort names) (
        any-sort (is_gamezone root) names
        ∙ any_of_Listed (is_gamezone root) e names listed named) in
    device_dir-preferred root
    ∙ rw
        (listing, found.1, only found.0 (find-some (is_gamezone root) (sort names) found.0 found.1))
