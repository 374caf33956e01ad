-- ===== src/Text/Decimal.antt =====
-- Decimal output, `u32::to_string` and `{}` of a number.
pub mod Parse
use Prim.Native.String.{[], ◌∷◌, char_at}
use legion_linux_toolkit_rus.Prelude.{ℕ, zero, suc, ◌/◌, ◌%◌, Char, String, ltb, if◌then◌else◌}

unfoldable pub digit : ℕ → Char
digit d = char_at "0123456789" d

-- The digits of `n` in front of those printed so far; the fuel bounds the rounds.
unfoldable pub show_from : ℕ → ℕ → String → String
unfolding digit
show_from zero n acc = acc
show_from (suc fuel) n acc =
    let more = show_from fuel (n / 10) (digit (n % 10) ∷ acc) in
    if ltb n 10 then digit n ∷ acc else more

unfoldable pub show : ℕ → String
unfolding show_from
show n = show_from (suc n) n []
