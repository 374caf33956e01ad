-- ===== src/Hw/Profile/RoundTrip.antt =====
-- Writing a mode and reading it back, and reading the list of choices.
use Prim.Native.String.{[], ◌∷◌}
use legion_linux_toolkit_rus.Prelude.{
  ℕ, String, code, List, ◌≡◌, ◌≢◌, refl, ◌∙◌, ap, Option, none, some, arith, All, map,
}
use legion_linux_toolkit_rus.Prelude.Result.{ok, collect, ◌>>=◌}
use legion_linux_toolkit_rus.Text.{◌<>◌, join, is_whitespace}
use legion_linux_toolkit_rus.Text.Trim.{NoSpace}
use legion_linux_toolkit_rus.Text.Words.{IsWord, split_whitespace-join, split_whitespace-trim}
use legion_linux_toolkit_rus.Hw.Sysfs.{Sysfs, Kernel, read, list_dir, write}
use legion_linux_toolkit_rus.Hw.Sysfs.Laws.{
  IsAttribute, read-write, keeps_files-write, keeps_dirs-write,
}
use legion_linux_toolkit_rus.Hw.Profile.{
  PowerProfile, quiet, balanced, performance, extreme, custom, class_dir, as_sysfs, from_sysfs,
  device_among, device_dir, profile_file, or_insert, choices, get, set,
}
use legion_linux_toolkit_rus.Hw.Profile.Names.{from_sysfs-as_sysfs}
use legion_linux_toolkit_rus.Hw.Profile.Device.{dir_of}

-- The last character but one, by which `…/name` and `…/profile` differ.
unfoldable pub last_but_one : ℕ → ℕ → String → ℕ
last_but_one a b [] = a
last_but_one a b (c ∷ s) = last_but_one b (code c) s

pub last_but_one-name : (a b : ℕ) (s : String) → last_but_one a b (s <> "/name") ≡ b'm'
unfolding last_but_one
last_but_one-name a b [] = refl
last_but_one-name a b (c ∷ s) = last_but_one-name b (code c) s

pub last_but_one-profile : (a b : ℕ) (s : String) → last_but_one a b (s <> "/profile") ≡ b'l'
unfolding last_but_one
last_but_one-profile a b [] = refl
last_but_one-profile a b (c ∷ s) = last_but_one-profile b (code c) s

last_but_one-choices : (a b : ℕ) (s : String) → last_but_one a b (s <> "/choices") ≡ b'e'
unfolding last_but_one
last_but_one-choices a b [] = refl
last_but_one-choices a b (c ∷ s) = last_but_one-choices b (code c) s

choices-ne-profile : (s t : String) → s <> "/choices" ≢ t <> "/profile"
choices-ne-profile s t e =
    omega (arith, last_but_one-choices 0 0 s, last_but_one-profile 0 0 t, ap (last_but_one 0 0) e)

name-ne-profile : (s t : String) → s <> "/name" ≢ t <> "/profile"
name-ne-profile s t e =
    omega (arith, last_but_one-name 0 0 s, last_but_one-profile 0 0 t, ap (last_but_one 0 0) e)

-- The scan depends on the listing of the class and on the `name` files alone.
device_among_cong :
    (r s : Sysfs) (fallback : Option String) (names : List String)
    → ((e : String) → s.read_file (dir_of e <> "/name") ≡ r.read_file (dir_of e <> "/name"))
    → device_among s fallback names ≡ device_among r fallback names
unfolding device_among
device_among_cong r s fallback List.[] h = refl
device_among_cong r s fallback (List.◌∷◌ e es) h =
    rw (h e, device_among_cong r s (or_insert fallback (dir_of e)) es h)

pub device_dir_cong :
    (r s : Sysfs)
    → s.read_dir class_dir ≡ r.read_dir class_dir
    → ((e : String) → s.read_file (dir_of e <> "/name") ≡ r.read_file (dir_of e <> "/name"))
    → device_dir s ≡ device_dir r
unfolding device_dir list_dir
device_dir_cong r s d h = rw d (device_among_cong r s none _ h)

as_sysfs-NoSpace : (p : PowerProfile) → NoSpace (as_sysfs p)
unfolding as_sysfs is_whitespace
as_sysfs-NoSpace quiet = ground arith
as_sysfs-NoSpace balanced = ground arith
as_sysfs-NoSpace performance = ground arith
as_sysfs-NoSpace extreme = ground arith
as_sysfs-NoSpace custom = ground arith

as_sysfs-IsWord : (p : PowerProfile) → IsWord (as_sysfs p)
unfolding as_sysfs
as_sysfs-IsWord p = (as_sysfs-NoSpace p, ne p)
  where
    ne : (q : PowerProfile) → as_sysfs q ≢ ""
    ne quiet e = cc
    ne balanced e = cc
    ne performance e = cc
    ne extreme e = cc
    ne custom e = cc

module _ (K : Kernel) (root : Sysfs) (dir : String) (found : device_dir root ≡ some dir) where
  set_lem : (p : PowerProfile) → set K p root ≡ write K (dir <> "/profile") (as_sysfs p) root
  unfolding set profile_file
  set_lem p = rw found

  get_lem : get root ≡ (read root (dir <> "/profile") >>= from_sysfs)
  unfolding get profile_file
  get_lem = rw found

module _ (K : Kernel) (root : Sysfs) (dir : String) (found : device_dir root ≡ some dir)
    (A : IsAttribute K (dir <> "/profile")) where
  -- Writing the attribute does not move the discovery to another device.
  pub device_dir-write : (v : String) → device_dir (write K (dir <> "/profile") v root).1 ≡ some dir
  device_dir-write v =
      device_dir_cong root (write K (dir <> "/profile") v root).1
        (keeps_dirs-write K (dir <> "/profile") v root A class_dir)
        (λ e.
          keeps_files-write K (dir <> "/profile") v root A (dir_of e <> "/name")
            (name-ne-profile (dir_of e) dir))
      ∙ found

  -- A mode whose write succeeds is the mode that is read afterwards, on a device whose `profile`
  -- attribute keeps what is written.
  pub get-set : (p : PowerProfile) → (set K p root).0 ≡ ok tt → get (set K p root).1 ≡ ok p
  get-set p h =
      let w = write K (dir <> "/profile") (as_sysfs p) root in
      rw (set_lem K root dir found p) (
        get_lem K w.1 dir (device_dir-write (as_sysfs p))
        ∙ rw
            (read-write K (dir <> "/profile") (as_sysfs p) root A (as_sysfs-NoSpace p)
              (rw (set_lem K root dir found p) at h))
            (from_sysfs-as_sysfs p))

  choices-found :
      (r : Sysfs)
      → device_dir r ≡ some dir
      → r.read_file (dir <> "/choices") ≡ root.read_file (dir <> "/choices")
      → choices r ≡ choices root
  unfolding choices read
  choices-found r f same = rw (f, found, same) refl

  -- A write to the `profile` attribute leaves the choices.
  pub choices-set : (p : PowerProfile) → choices (set K p root).1 ≡ choices root
  choices-set p = rw (set_lem K root dir found p) (
      choices-found (write K (dir <> "/profile") (as_sysfs p) root).1
        (device_dir-write (as_sysfs p))
        (keeps_files-write K (dir <> "/profile") (as_sysfs p) root A (dir <> "/choices")
          (choices-ne-profile dir dir)))

-- The `choices` file that lists the modes.
abbrev pub choices_line : List PowerProfile → String
choices_line ps = join (map as_sysfs ps) <> "\n"

collect-as_sysfs : (ps : List PowerProfile) → collect from_sysfs (map as_sysfs ps) ≡ ok ps
collect-as_sysfs List.[] = refl
collect-as_sysfs (List.◌∷◌ p ps) = rw (from_sysfs-as_sysfs p, collect-as_sysfs ps)

map-IsWord : (ps : List PowerProfile) → All IsWord (map as_sysfs ps)
map-IsWord List.[] = tt
map-IsWord (List.◌∷◌ p ps) = (as_sysfs-IsWord p, map-IsWord ps)

-- Where the device lists its modes, separated by spaces on a line, `choices` returns them in the
-- order of the kernel, however many there are.
pub choices-line :
    (root : Sysfs) (dir : String) (ps : List PowerProfile)
    → device_dir root ≡ some dir
    → root.read_file (dir <> "/choices") ≡ ok (choices_line ps)
    → choices root ≡ ok ps
unfolding choices
choices-line root dir ps found h =
    rw
      (
        found,
        h,
        read,
        split_whitespace-trim (choices_line ps),
        split_whitespace-join (map as_sysfs ps) (map-IsWord ps),
      )
      (collect-as_sysfs ps)
