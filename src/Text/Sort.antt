-- ===== src/Text/Sort.antt =====
-- `Vec<String>::sort`: by the bytes of the texts, which is the order of their characters.
pub mod Members
use Prim.Native.Nat.{Ordering}
use Prim.Native.String.{compare}
use legion_linux_toolkit_rus.Prelude.{String, Bool, true, false, List, [], ◌∷◌, if◌then◌else◌}

abbrev pub str_le : String → String → Bool
str_le s t = elim (compare s t) [ Ordering.gt ↦ false | _ ↦ true ]

unfoldable pub insert : String → List String → List String
insert s [] = s ∷ []
insert s (t ∷ ts) = if str_le s t then s ∷ t ∷ ts else t ∷ insert s ts

unfoldable pub sort : List String → List String
unfolding insert
sort [] = []
sort (s ∷ ts) = insert s (sort ts)
