-- ===== src/Gui/Color.antt =====
-- crates/legion-gui/src/state.rs: `parse_hex` and `profile_rgb`. Rust slices a text by its bytes
-- and panics within a character; a panic is the outer `none`.
pub mod Components
use Prim.Native.String.{[], ◌∷◌}
use legion_linux_toolkit_rus.Prelude.{
  ℕ, ◌+◌, ◌-◌, ◌*◌, Char, code, String, Bool, true, false, ◌&&◌, Option, none, some, ltb, leb, ◌=?◌,
  if◌then◌else◌,
}
use legion_linux_toolkit_rus.Text.{strip_prefix}
use legion_linux_toolkit_rus.Gui.Labels.{profile_color}

-- `char::len_utf8`
abbrev pub len_utf8 : Char → ℕ
len_utf8 c =
    let n = code c in
    if ltb n 0x80 then 1 else if ltb n 0x800 then 2 else if ltb n 0x10000 then 3 else 4

-- `str::len`
abbrev pub len : String → ℕ
len [] = 0
len (c ∷ s) = len_utf8 c + len s

-- The text before the byte `n` of a text, and the text from there on.
abbrev pub split_at : ℕ → String → Option (String × String)
split_at n [] = if n =? 0 then some ([], []) else none
split_at n (c ∷ s) =
    let rest = split_at (n - len_utf8 c) s in
    if n =? 0 then some ([], c ∷ s) else if ltb n (len_utf8 c) then none else push c rest
  where
    push : Char → Option (String × String) → Option (String × String)
    push c none = none
    push c (some (a, b)) = some (c ∷ a, b)

-- `char::to_digit(16)`
abbrev pub hex_digit : Char → Option ℕ
hex_digit c =
    let n = code c in
    if leb b'0' n && leb n b'9'
    then some (n - b'0')
    else if leb b'a' n && leb n b'f'
    then some (n - b'a' + 10)
    else if leb b'A' n && leb n b'F'
    then some (n - b'A' + 10)
    else none

abbrev pub digit_onto : Option ℕ → Option ℕ → Option ℕ
digit_onto (some n) (some d) = some (n * 16 + d)
digit_onto none d = none
digit_onto (some n) none = none

abbrev pub digits : Option ℕ → String → Option ℕ
digits acc [] = acc
digits acc (c ∷ s) = digits (digit_onto acc (hex_digit c)) s

-- The digits of a number in base 16, after an optional `+`.
abbrev pub radix_digits : String → Option ℕ
radix_digits [] = none
radix_digits (c ∷ []) = if code c =? b'+' then none else digits (some 0) (c ∷ [])
radix_digits (c ∷ d ∷ s) =
    if code c =? b'+' then digits (some 0) (d ∷ s) else digits (some 0) (c ∷ d ∷ s)

-- `u8::from_str_radix(s, 16)`
unfoldable pub from_str_radix : String → Option ℕ
from_str_radix s = below_256 (radix_digits s)
  where
    below_256 : Option ℕ → Option ℕ
    below_256 none = none
    below_256 (some n) = if ltb n 256 then some n else none

-- The colour components at the front of a text, `count` of them: `none` is a panic, `some none` a
-- text that is no number.
abbrev pub and_component :
    {A : Type 0} → Option (String × String) → (ℕ → String → Option (Option A)) → Option (Option A)
and_component none f = none
and_component (some (a, rest)) f = parsed (from_str_radix a) f rest
  where
    parsed : {A : Type 0} → Option ℕ → (ℕ → String → Option (Option A)) → String → Option (Option A)
    parsed none f rest = some none
    parsed (some n) f rest = f n rest

abbrev pub Rgb : Type 0
Rgb = ℕ × ℕ × ℕ

abbrev pub components : String → Option (Option Rgb)
components s = and_component (split_at 2 s) λ r s1.
    and_component (split_at 2 s1)
      λ g s2. and_component (split_at 2 s2) λ b s3. some (some (r, g, b))

abbrev pub after_hash : Option String → Option (Option Rgb)
after_hash none = some none
after_hash (some s) = if len s =? 6 then components s else some none

unfoldable pub parse_hex : String → Option (Option Rgb)
unfolding strip_prefix from_str_radix
parse_hex hex = after_hash (strip_prefix "#" hex)

abbrev pub or_grey : Option (Option Rgb) → Option Rgb
or_grey none = none
or_grey (some none) = some (0x99, 0xa0, 0xb0)
or_grey (some (some c)) = some c

unfoldable pub profile_rgb : String → Option Rgb
unfolding profile_color parse_hex
profile_rgb profile = or_grey (parse_hex (profile_color profile))
