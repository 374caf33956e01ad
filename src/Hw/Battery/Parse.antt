-- ===== src/Hw/Battery/Parse.antt =====
-- `parse_charge_types` against the line that the kernel prints.
use legion_linux_toolkit_rus.Prelude.{
  String, Bool, List, [], ◌∷◌, ◌++◌, ◌≡◌, ◌≢◌, refl, ◌∙◌, Option, none, some, true, false, arith,
  map, All, if◌then◌else◌,
}
use mathlib.Core.List.{append-nil, append_assoc}
use legion_linux_toolkit_rus.Prelude.Result.{ok}
use legion_linux_toolkit_rus.Text.{◌<>◌, join, is_whitespace}
use legion_linux_toolkit_rus.Text.Words.{IsWord, split_whitespace-join}
use legion_linux_toolkit_rus.Hw.Battery.{
  ChargeMode, ChargeTypes, standard, fast, long_life, as_sysfs, unbracket, parse_tokens,
  parse_charge_types,
}
use legion_linux_toolkit_rus.Hw.Battery.Names.{from_sysfs-as_sysfs}

-- A mode as the kernel lists it: in brackets if it is marked active.
abbrev pub token : ChargeMode × Bool → String
token (m, marked) = if marked then "[" <> as_sysfs m <> "]" else as_sysfs m

-- The line of the kernel for a list of modes, each with its mark.
abbrev pub charge_line : List (ChargeMode × Bool) → String
charge_line ts = join (map token ts) <> "\n"

abbrev pub mode_of : ChargeMode × Bool → ChargeMode
mode_of (m, marked) = m

-- The last mode that is marked.
abbrev pub marked_mode : Option ChargeMode → List (ChargeMode × Bool) → Option ChargeMode
marked_mode found [] = found
marked_mode found ((m, marked) ∷ ts) = marked_mode (if marked then some m else found) ts

unbracket-token : (m : ChargeMode) (b : Bool) → unbracket (token (m, b)) ≡ (as_sysfs m, b)
unfolding unbracket as_sysfs
unbracket-token standard true = refl
unbracket-token standard false = refl
unbracket-token fast true = refl
unbracket-token fast false = refl
unbracket-token long_life true = refl
unbracket-token long_life false = refl

token-IsWord : (m : ChargeMode) (b : Bool) → IsWord (token (m, b))
unfolding as_sysfs is_whitespace
token-IsWord standard true = (ground arith, λ e. cc)
token-IsWord standard false = (ground arith, λ e. cc)
token-IsWord fast true = (ground arith, λ e. cc)
token-IsWord fast false = (ground arith, λ e. cc)
token-IsWord long_life true = (ground arith, λ e. cc)
token-IsWord long_life false = (ground arith, λ e. cc)

tokens-IsWord : (ts : List (ChargeMode × Bool)) → All IsWord (map token ts)
tokens-IsWord [] = tt
tokens-IsWord ((m, b) ∷ ts) = (token-IsWord m b, tokens-IsWord ts)

parse_tokens-token :
    (ct : ChargeTypes) (ts : List (ChargeMode × Bool))
    → parse_tokens ct (map token ts)
      ≡ ok
          (record { available = ct.available ++ map mode_of ts; active = marked_mode ct.active ts })
unfolding parse_tokens
parse_tokens-token ct [] = rw append-nil
parse_tokens-token ct ((m, b) ∷ ts) =
    let next : ChargeTypes = record {
      available = ct.available ++ m ∷ [];
      active = if b then some m else ct.active;
    } in
    rw (unbracket-token m b, from_sysfs-as_sysfs m) (parse_tokens-token next ts ∙ rw append_assoc)

-- The line of the kernel for a list of modes that is not empty is parsed to these modes in their
-- order, and to the last of them that is marked, if one is.
pub parse_charge_types-line :
    (ts : List (ChargeMode × Bool))
    → ts ≢ []
    → parse_charge_types (charge_line ts)
      ≡ ok (record { available = map mode_of ts; active = marked_mode none ts })
unfolding parse_charge_types
parse_charge_types-line [] h = absurd (h refl)
parse_charge_types-line (t ∷ ts) h = rw (
  split_whitespace-join (map token (t ∷ ts)) (tokens-IsWord (t ∷ ts)),
  parse_tokens-token (record { available = []; active = none }) (t ∷ ts),
)
