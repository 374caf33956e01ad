-- ===== src/Text/Trim.antt =====
-- Texts without white space, as the values of sysfs files are: what trimming leaves of them.
use Prim.Native.String.{[], ◌∷◌}
use legion_linux_toolkit_rus.Prelude.{String, ◌≡◌, refl, false}
use legion_linux_toolkit_rus.Text.{◌<>◌, is_whitespace, trim_start, trim_end, trim}

abbrev pub NoSpace : String → Type 0
NoSpace [] = Unit
NoSpace (c ∷ s) = (is_whitespace c ≡ false) × NoSpace s

-- The line feed that ends the line of a sysfs file.
trim_end-line : (s : String) → NoSpace s → trim_end (s <> "\n") ≡ s
unfolding trim_end is_whitespace
trim_end-line [] h = refl
trim_end-line (c ∷ []) h = rw h.0
trim_end-line (c ∷ d ∷ s) h = rw (trim_end-line (d ∷ s) h.1)

trim_start-NoSpace : (s : String) → NoSpace s → trim_start s ≡ s
unfolding trim_start
trim_start-NoSpace [] h = refl
trim_start-NoSpace (c ∷ s) h = rw h.0

-- Reading a line gives back the text without white space that the line was made of.
pub trim-line : (s : String) → NoSpace s → trim (s <> "\n") ≡ s
unfolding trim
trim-line s h = rw (trim_end-line s h) (trim_start-NoSpace s h)

trim_end-NoSpace : (s : String) → NoSpace s → trim_end s ≡ s
unfolding trim_end
trim_end-NoSpace [] h = refl
trim_end-NoSpace (c ∷ []) h = rw h.0
trim_end-NoSpace (c ∷ d ∷ s) h = rw (trim_end-NoSpace (d ∷ s) h.1)

pub trim-NoSpace : (s : String) → NoSpace s → trim s ≡ s
unfolding trim
trim-NoSpace s h = rw (trim_end-NoSpace s h) (trim_start-NoSpace s h)
