-- ===== src/Text.antt =====
-- The operations of Rust's `str` that the source uses, over the native `String`.
pub mod Decimal
pub mod Sort
pub mod Append
pub mod Trim
pub mod Words
use Prim.Native.String.{[], ◌∷◌, char_at, count}
use legion_linux_toolkit_rus.Prelude.{
  ℕ, zero, suc, ◌+◌, ◌-◌, ◌*◌, Char, code, String, Bool, true, false, ◌&&◌, ◌||◌, Option, none,
  some, List, leb, ltb, ◌=?◌, ◌==◌, if◌then◌else◌,
}

infixr 65 ◌<>◌
-- `String` concatenation by clauses, so that it computes at a literal on the left.
abbrev pub ◌<>◌ : String → String → String
[] <> t = t
(c ∷ s) <> t = c ∷ (s <> t)

-- `char::is_whitespace`: the code points with the property White_Space.
unfoldable pub is_whitespace : Char → Bool
is_whitespace c =
    let n = code c in
    (leb 9 n && leb n 13)
    || n =? 32
    || n =? 0x85
    || n =? 0xa0
    || n =? 0x1680
    || (leb 0x2000 n && leb n 0x200a)
    || n =? 0x2028
    || n =? 0x2029
    || n =? 0x202f
    || n =? 0x205f
    || n =? 0x3000

-- `str::trim_start`
unfoldable pub trim_start : String → String
trim_start [] = []
trim_start (c ∷ s) = let rest = trim_start s in if is_whitespace c then rest else c ∷ s

abbrev pub drop_blank : Char → String → String
drop_blank c [] = if is_whitespace c then [] else c ∷ []
drop_blank c (d ∷ s) = c ∷ d ∷ s

-- `str::trim_end`
unfoldable pub trim_end : String → String
trim_end [] = []
trim_end (c ∷ s) = drop_blank c (trim_end s)

-- `str::trim`
unfoldable pub trim : String → String
unfolding trim_start trim_end
trim s = trim_start (trim_end s)

-- `char::to_ascii_lowercase`
unfoldable pub lower_char : Char → Char
lower_char c =
    if leb b'A' (code c) && leb (code c) b'Z'
    then char_at "abcdefghijklmnopqrstuvwxyz" (code c - b'A')
    else c

-- `str::to_ascii_lowercase`
unfoldable pub to_ascii_lowercase : String → String
unfolding lower_char
to_ascii_lowercase [] = []
to_ascii_lowercase (c ∷ s) = lower_char c ∷ to_ascii_lowercase s

-- `str::eq_ignore_ascii_case`
unfoldable pub eq_ignore_ascii_case : String → String → Bool
unfolding to_ascii_lowercase
eq_ignore_ascii_case s t = to_ascii_lowercase s == to_ascii_lowercase t

-- `str::replace` with a set of characters as the pattern
unfoldable pub replace_chars : (Char → Bool) → String → String → String
replace_chars p [] by = []
replace_chars p (c ∷ s) by = let rest = replace_chars p s by in if p c then by <> rest else c ∷ rest

abbrev pub push_word : String → List String → List String
push_word [] words = words
push_word (c ∷ w) words = List.◌∷◌ (c ∷ w) words

-- The word that a text begins with, which may be empty, and the words after it.
unfoldable pub split_words : String → String × List String
unfolding is_whitespace
split_words [] = ([], List.[])
split_words (c ∷ s) =
    let (w, words) = split_words s in
    if is_whitespace c then ([], push_word w words) else (c ∷ w, words)

-- `str::split_whitespace`
unfoldable pub split_whitespace : String → List String
unfolding split_words
split_whitespace s = let (w, words) = split_words s in push_word w words

-- `str::strip_prefix`
unfoldable pub strip_prefix : String → String → Option String
strip_prefix [] s = some s
strip_prefix (c ∷ p) [] = none
strip_prefix (c ∷ p) (d ∷ s) =
    let rest = strip_prefix p s in if code c =? code d then rest else none

abbrev cons_option : Char → Option String → Option String
cons_option c none = none
cons_option c (some s) = some (c ∷ s)

-- `str::strip_suffix`
unfoldable pub strip_suffix : String → String → Option String
strip_suffix p [] = if p == "" then some [] else none
strip_suffix p (c ∷ s) =
    let rest = strip_suffix p s in if p == (c ∷ s) then some [] else cons_option c rest

abbrev is_some : Option String → Bool
is_some none = false
is_some (some s) = true

-- `str::starts_with`
unfoldable pub starts_with : String → String → Bool
unfolding strip_prefix
starts_with s p = is_some (strip_prefix p s)

-- `str::ends_with`
unfoldable pub ends_with : String → String → Bool
unfolding strip_suffix
ends_with s p = is_some (strip_suffix p s)

-- `str::contains`
unfoldable pub contains : String → String → Bool
unfolding starts_with
contains [] p = p == ""
contains (c ∷ s) p = starts_with (c ∷ s) p || contains s p

-- The loop of `str::parse::<uN>` over the digits, without the overflow test.
unfoldable pub digits_from : ℕ → String → Option ℕ
digits_from n [] = some n
digits_from n (c ∷ s) =
    let rest = digits_from (n * 10 + (code c - b'0')) s in
    if leb b'0' (code c) && leb (code c) b'9' then rest else none

abbrev unsigned : String → Option ℕ
unsigned [] = none
unsigned (c ∷ s) = digits_from 0 (c ∷ s)

-- An optional `+`, then at least one digit.
abbrev drop_plus : String → String
drop_plus [] = []
drop_plus (c ∷ s) = if code c =? b'+' then s else c ∷ s

abbrev below : ℕ → Option ℕ → Option ℕ
below limit none = none
below limit (some n) = if ltb n limit then some n else none

-- `str::parse::<uN>()`, where `limit` is 2 ^ N
unfoldable pub parse_unsigned : ℕ → String → Option ℕ
unfolding digits_from
parse_unsigned limit s = below limit (unsigned (drop_plus s))

-- `str::replace` with a text as the pattern, which is not empty: the matches do not overlap. The
-- count of characters to skip runs over a match.
unfoldable pub replace_skip : ℕ → String → String → String → String
unfolding starts_with
replace_skip n p by [] = []
replace_skip (suc n) p by (c ∷ s) = replace_skip n p by s
replace_skip zero p by (c ∷ s) =
    let hit = replace_skip (count p - 1) p by s in
    let miss = replace_skip 0 p by s in if starts_with (c ∷ s) p then by <> hit else c ∷ miss

-- `s.replace(p, by)`
unfoldable pub replace_text : String → String → String → String
unfolding replace_skip
replace_text p by s = replace_skip 0 p by s

-- `slice::join(" ")`
unfoldable pub join : List String → String
join List.[] = []
join (List.◌∷◌ w List.[]) = w
join (List.◌∷◌ w (List.◌∷◌ v ws)) = w <> " " <> join (List.◌∷◌ v ws)
