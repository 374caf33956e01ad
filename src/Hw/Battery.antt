-- ===== src/Hw/Battery.antt =====
-- crates/legion-hw/src/battery.rs: the charge mode and the presence of mains power. The
-- statistics stand in Hw/BatteryStats.
pub mod Names
pub mod Parse
pub mod RoundTrip
use legion_linux_toolkit_rus.Prelude.{
  ℕ, String, Bool, true, false, not, ◌||◌, Option, none, some, List, [], ◌∷◌, ◌=?◌, ◌==◌,
  if◌then◌else◌, find, is_empty, Char, code, ◌++◌,
}
use legion_linux_toolkit_rus.Prelude.Result.{ok, err, ok_or, ◌>>=◌}
use legion_linux_toolkit_rus.Text.{
  ◌<>◌, trim, to_ascii_lowercase, eq_ignore_ascii_case, replace_chars, split_whitespace,
  strip_prefix, strip_suffix, starts_with,
}
use legion_linux_toolkit_rus.Hw.Error.{HwError, HwResult, plain, quoted}
use legion_linux_toolkit_rus.Hw.Sysfs.{
  Sysfs, Kernel, Action, u32, read, read_opt, read_parsed_opt, exists, write, list_dir,
}

abbrev pub charge_file : String
charge_file = "sys/class/power_supply/BAT0/charge_types"

abbrev pub supplies : String
supplies = "sys/class/power_supply"

pub data ChargeMode : Type 0 where
  standard fast long_life : ChargeMode

abbrev pub all : List ChargeMode
all = standard ∷ fast ∷ long_life ∷ []

unfoldable pub as_sysfs : ChargeMode → String
as_sysfs standard = "Standard"
as_sysfs fast = "Fast"
as_sysfs long_life = "Long_Life"

unfoldable pub key : ChargeMode → String
key standard = "standard"
key fast = "fast"
key long_life = "long-life"

unfoldable pub label : ChargeMode → String
label standard = "Standard"
label fast = "Rapid charge"
label long_life = "Conservation"

unfoldable pub from_sysfs : String → HwResult ChargeMode
unfolding as_sysfs trim eq_ignore_ascii_case
from_sysfs input =
    let s = trim input in
    ok_or (HwError.parse (plain "unknown charge type " ∷ quoted s ∷ []))
      (find (λ m. eq_ignore_ascii_case (as_sysfs m) s) all)

abbrev is_joiner : Char → Bool
is_joiner c = code c =? b'_' || code c =? b' '

abbrev is_underscore : Char → Bool
is_underscore c = code c =? b'_'

abbrev is_dash : Char → Bool
is_dash c = code c =? b'-'

-- `s.trim().to_ascii_lowercase().replace(['_', ' '], "-")`
unfoldable pub normal : String → String
unfolding trim to_ascii_lowercase replace_chars
normal s = replace_chars is_joiner (to_ascii_lowercase (trim s)) "-"

-- The test of `from_user` on a mode.
unfoldable pub spelled : String → ChargeMode → Bool
unfolding key as_sysfs to_ascii_lowercase replace_chars
spelled norm m =
    key m == norm
    || replace_chars is_underscore (to_ascii_lowercase (as_sysfs m)) "-" == norm
    || replace_chars is_dash (key m) "" == norm

unfoldable pub from_user : String → HwResult ChargeMode
unfolding normal spelled
from_user s =
    ok_or (HwError.parse (plain "unknown charge mode " ∷ quoted s ∷ []))
      (find (spelled (normal s)) all)

pub record ChargeTypes : Type 0 where
  pub available : List ChargeMode
  pub active : Option ChargeMode

abbrev close_bracket : String → Option String → String × Bool
close_bracket token none = (token, false)
close_bracket token (some inner) = (inner, true)

abbrev open_bracket : String → Option String → String × Bool
open_bracket token none = (token, false)
open_bracket token (some t) = close_bracket token (strip_suffix "]" t)

-- A token without its brackets, and whether it had them.
unfoldable pub unbracket : String → String × Bool
unfolding strip_prefix strip_suffix
unbracket token = open_bracket token (strip_prefix "[" token)

-- The loop of `parse_charge_types` over the tokens left.
unfoldable pub parse_tokens : ChargeTypes → List String → HwResult ChargeTypes
unfolding unbracket from_sysfs
parse_tokens ct [] = ok ct
parse_tokens ct (token ∷ rest) =
    let (name, is_active) = unbracket token in
    from_sysfs name >>= λ mode.
    parse_tokens
      (record {
        available = ct.available ++ mode ∷ [];
        active = if is_active then some mode else ct.active;
      })
      rest

abbrev none_empty : ChargeTypes → HwResult ChargeTypes
none_empty ct =
    if is_empty ct.available then err (HwError.parse (plain "empty charge_types" ∷ [])) else ok ct

unfoldable pub parse_charge_types : String → HwResult ChargeTypes
unfolding split_whitespace parse_tokens
parse_charge_types raw =
    parse_tokens (record { available = []; active = none }) (split_whitespace raw) >>= none_empty

unfoldable pub available : Sysfs → Bool
unfolding exists
available root = exists root charge_file

unfoldable pub charge_types : Sysfs → HwResult ChargeTypes
unfolding read parse_charge_types
charge_types root = do raw ← read root charge_file; parse_charge_types raw

unfoldable pub get_mode : Sysfs → HwResult ChargeMode
unfolding charge_types
get_mode root = do
  ct ← charge_types root
  ok_or (HwError.parse (plain "charge_types has no active entry" ∷ [])) ct.active

unfoldable pub set_mode : Kernel → ChargeMode → Action
unfolding as_sysfs write
set_mode K m root = write K charge_file (as_sysfs m) root

abbrev is_mains_type : Option String → Bool
is_mains_type none = false
is_mains_type (some t) = eq_ignore_ascii_case t "Mains"

is_mains : Sysfs → String → Bool
unfolding read_opt eq_ignore_ascii_case starts_with
is_mains root entry =
    is_mains_type (read_opt root (supplies <> "/" <> entry <> "/type"))
    || starts_with entry "ADP"
    || starts_with entry "AC"

abbrev online : Option ℕ → Option Bool → Option Bool
online none rest = rest
online (some v) rest = some (not (v =? 0))

-- The loop of `ac_online` over the supplies left.
ac_among : Sysfs → List String → Option Bool
unfolding is_mains read_parsed_opt
ac_among root [] = none
ac_among root (entry ∷ rest) =
    let others = ac_among root rest in
    if is_mains root entry
    then online (read_parsed_opt u32 root (supplies <> "/" <> entry <> "/online")) others
    else others

unfoldable pub ac_online : Sysfs → Option Bool
unfolding ac_among list_dir
ac_online root = ac_among root (list_dir root supplies)
