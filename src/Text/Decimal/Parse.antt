-- ===== src/Text/Decimal/Parse.antt =====
-- Parsing a printed number gives the number.
use Prim.Native.String.{[], ◌∷◌}
use legion_linux_toolkit_rus.Prelude.{
  ℕ, zero, suc, ◌+◌, ◌-◌, ◌*◌, ◌/◌, ◌%◌, ◌<◌, ◌≤◌, String, Char, code, ◌≡◌, refl, ap, ◌∙◌, false,
  some, arith, inl, inr, ltb, Bool-cases,
}
use legion_linux_toolkit_rus.Text.{is_whitespace, digits_from, parse_unsigned}
use legion_linux_toolkit_rus.Text.Trim.{NoSpace}
use legion_linux_toolkit_rus.Text.Decimal.{digit, show_from, show}

record IsDigit (c : Char) (d : ℕ) : Type 0 where
  low : b'0' ≤ code c
  high : code c ≤ b'9'
  amount : code c - b'0' ≡ d
  solid : is_whitespace c ≡ false

digit-IsDigit : (d : ℕ) → d < 10 → IsDigit (digit d) d
unfolding digit is_whitespace
digit-IsDigit zero h = ground arith
digit-IsDigit (suc zero) h = ground arith
digit-IsDigit (suc (suc zero)) h = ground arith
digit-IsDigit (suc (suc (suc zero))) h = ground arith
digit-IsDigit (suc (suc (suc (suc zero)))) h = ground arith
digit-IsDigit (suc (suc (suc (suc (suc zero))))) h = ground arith
digit-IsDigit (suc (suc (suc (suc (suc (suc zero)))))) h = ground arith
digit-IsDigit (suc (suc (suc (suc (suc (suc (suc zero))))))) h = ground arith
digit-IsDigit (suc (suc (suc (suc (suc (suc (suc (suc zero)))))))) h = ground arith
digit-IsDigit (suc (suc (suc (suc (suc (suc (suc (suc (suc zero))))))))) h = ground arith
digit-IsDigit (suc (suc (suc (suc (suc (suc (suc (suc (suc (suc d)))))))))) h = absurd (omega arith)

digits_from-digit :
    (m d : ℕ) (s : String) → d < 10 → digits_from m (digit d ∷ s) ≡ digits_from (m * 10 + d) s
unfolding digits_from
digits_from-digit m d s h = let c = digit-IsDigit d h in ground (arith, c.low, c.high, c.amount)

-- The digits printed for `n` bring a parser that has read nothing to `n`.
digits_from-show_from :
    (fuel n : ℕ) (acc : String)
    → n < fuel
    → digits_from 0 (show_from fuel n acc) ≡ digits_from n acc
unfolding show_from
digits_from-show_from zero n acc h = elim h [ ]
digits_from-show_from (suc fuel) n acc h = elim (Bool-cases (ltb n 10)) [
  | inl one ↦
      rw (one, digits_from-digit 0 n acc (ground arith)) (ap (λ m. digits_from m acc) (omega arith))
  | inr more ↦
      rw
        (
          more,
          digits_from-show_from fuel (n / 10) (digit (n % 10) ∷ acc) (ground arith),
          digits_from-digit (n / 10) (n % 10) acc (omega arith),
        )
        (ap (λ m. digits_from m acc) (omega arith))
]

-- The text begins with a digit.
abbrev Begins : String → Type 0
Begins [] = ⊥
Begins (c ∷ s) = (d : ℕ) × IsDigit c d

show_from-Begins : (fuel n : ℕ) (acc : String) → n < fuel → Begins (show_from fuel n acc)
unfolding show_from
show_from-Begins zero n acc h = elim h [ ]
show_from-Begins (suc fuel) n acc h = elim (Bool-cases (ltb n 10)) [
  | inl one ↦ rw one (n, digit-IsDigit n (ground arith))
  | inr more ↦ rw more (show_from-Begins fuel (n / 10) (digit (n % 10) ∷ acc) (ground arith))
]

parse_unsigned-Begins :
    (limit : ℕ) (s : String) {n : ℕ}
    → Begins s
    → digits_from 0 s ≡ some n
    → n < limit
    → parse_unsigned limit s ≡ some n
unfolding parse_unsigned
parse_unsigned-Begins limit [] b e h = absurd b
parse_unsigned-Begins limit (c ∷ s) (d, digit) e h = ground (arith, digit.low)

-- `n.to_string().parse::<uN>()` is `n`, for every `n` of the type.
pub parse_unsigned-show : (limit n : ℕ) → n < limit → parse_unsigned limit (show n) ≡ some n
unfolding show
parse_unsigned-show limit n h =
    parse_unsigned-Begins limit (show_from (suc n) n [])
      (show_from-Begins (suc n) n [] (omega arith))
      (digits_from-show_from (suc n) n [] (omega arith) ∙ unfold digits_from in refl) h

show_from-NoSpace :
    (fuel n : ℕ) (acc : String) → n < fuel → NoSpace acc → NoSpace (show_from fuel n acc)
unfolding show_from
show_from-NoSpace zero n acc h k = k
show_from-NoSpace (suc fuel) n acc h k = elim (Bool-cases (ltb n 10)) [
  | inl one ↦ rw one ((digit-IsDigit n (ground arith)).solid, k)
  | inr more ↦ rw more (
      show_from-NoSpace fuel (n / 10) (digit (n % 10) ∷ acc) (ground arith)
        ((digit-IsDigit (n % 10) (omega arith)).solid, k))
]

pub show-NoSpace : (n : ℕ) → NoSpace (show n)
unfolding show
show-NoSpace n = show_from-NoSpace (suc n) n [] (omega arith) tt
