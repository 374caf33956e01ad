-- ===== src/Text/Append.antt =====
-- Concatenation by clauses.
use Prim.Native.String.{[], ◌∷◌}
use legion_linux_toolkit_rus.Prelude.{String, ◌≡◌, ◌≢◌, refl, ap, false, arith, ◌==◌, eq_iff}
use legion_linux_toolkit_rus.Text.{◌<>◌}

pub <>_assoc : (a b c : String) → (a <> b) <> c ≡ a <> (b <> c)
<>_assoc [] b c = refl
<>_assoc (x ∷ a) b c = ap (λ s. x ∷ s) (<>_assoc a b c)

abbrev tail : String → String
tail [] = []
tail (c ∷ s) = s

pub append_cancel_left : (a b c : String) → a <> b ≡ a <> c → b ≡ c
append_cancel_left [] b c e = e
append_cancel_left (x ∷ a) b c e = append_cancel_left a b c (ap tail e)

-- Texts that differ keep differing behind the same beginning.
pub append-ne : (a : String) {b c : String} → b ≢ c → a <> b ≢ a <> c
append-ne a {b} {c} h e = h (append_cancel_left a b c e)

-- Texts that a test tells apart differ.
pub ne_of_test : (s t : String) → (s == t) ≡ false → s ≢ t
ne_of_test s t h e = ground (arith, (eq_iff s t).1 e)
