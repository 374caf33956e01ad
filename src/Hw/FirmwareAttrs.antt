-- ===== src/Hw/FirmwareAttrs.antt =====
-- crates/legion-hw/src/firmware_attrs.rs: the power limits and every other firmware attribute.
pub mod Names
pub mod Writes
pub mod Listing
pub mod Others
use legion_linux_toolkit_rus.Prelude.{
  ℕ, String, Bool, not, ◌&&◌, ◌||◌, Option, none, some, List, [], ◌∷◌, ◌==◌, leb, if◌then◌else◌,
  find, filter, filter_map,
}
use legion_linux_toolkit_rus.Prelude.Result.{ok, err, ok_or, to_option, ◌>>=◌}
use legion_linux_toolkit_rus.Text.{◌<>◌, trim, to_ascii_lowercase}
use legion_linux_toolkit_rus.Text.Decimal.{show}
use legion_linux_toolkit_rus.Hw.Error.{HwError, HwResult, Message, plain, quoted}
use legion_linux_toolkit_rus.Hw.Sysfs.{
  Sysfs, Kernel, Action, u32, read_opt, read_parsed, read_parsed_opt, exists, write, list_dir,
}

abbrev pub attr_dir : String
attr_dir = "sys/class/firmware-attributes/lenovo-wmi-other-0/attributes"

pub data PptAttr : Type 0 where
  spl sppt fppt : PptAttr

abbrev pub all : List PptAttr
all = spl ∷ sppt ∷ fppt ∷ []

unfoldable pub dir_name : PptAttr → String
dir_name spl = "ppt_pl1_spl"
dir_name sppt = "ppt_pl2_sppt"
dir_name fppt = "ppt_pl3_fppt"

unfoldable pub key : PptAttr → String
key spl = "spl"
key sppt = "sppt"
key fppt = "fppt"

unfoldable pub label : PptAttr → String
label spl = "Sustained (SPL)"
label sppt = "Slow boost (SPPT)"
label fppt = "Fast boost (FPPT)"

unfoldable pub from_key : String → HwResult PptAttr
unfolding key dir_name trim to_ascii_lowercase
from_key input =
    let s = to_ascii_lowercase (trim input) in
    ok_or (HwError.parse (plain "unknown power-limit attribute " ∷ quoted s ∷ []))
      (find (λ a. key a == s || dir_name a == s) all)

pub record AttrInfo : Type 0 where
  pub key : String
  pub display_name : String
  pub current : ℕ
  pub default : ℕ
  pub min : ℕ
  pub max : ℕ
  pub step : ℕ

unfoldable pub in_range : AttrInfo → ℕ → Bool
in_range info watts = leb info.min watts && leb watts info.max

unfoldable pub available : Sysfs → Bool
unfolding exists
available root = exists root attr_dir

-- `format!("{ATTR_DIR}/{dir_name}/{file}")`
abbrev pub attr_file : String → String → String
attr_file name file = attr_dir <> "/" <> name <> "/" <> file

unfoldable pub available_attrs : Sysfs → List String
unfolding list_dir exists
available_attrs root =
    filter (λ name. exists root (attr_file name "current_value")) (list_dir root attr_dir)

abbrev pub get_or {ℓ} : {A : Type ℓ} → A → Option A → A
get_or d none = d
get_or d (some a) = a

abbrev key_of : String → Option PptAttr → String
key_of name none = name
key_of name (some a) = key a

-- The short key of a known attribute, else the name of its directory.
unfoldable pub short_key : String → String
unfolding dir_name key
short_key name = key_of name (find (λ a. dir_name a == name) all)

unfoldable pub read_by_name : Sysfs → String → HwResult AttrInfo
read_by_name root name =
    if not (exists root (attr_file name "current_value"))
    then err HwError.not_supported
    else (read_parsed u32 root (attr_file name "current_value") >>= λ current. ok (record {
      key = short_key name;
      display_name = get_or name (read_opt root (attr_file name "display_name"));
      current = current;
      default = get_or 0 (read_parsed_opt u32 root (attr_file name "default_value"));
      min = get_or 0 (read_parsed_opt u32 root (attr_file name "min_value"));
      max = get_or 4294967295 (read_parsed_opt u32 root (attr_file name "max_value"));
      step = get_or 1 (read_parsed_opt u32 root (attr_file name "scalar_increment"));
    }))

unfoldable pub read_attr : Sysfs → PptAttr → HwResult AttrInfo
unfolding read_by_name dir_name
read_attr root a = read_by_name root (dir_name a)

unfoldable pub list_all : Sysfs → List AttrInfo
unfolding available_attrs read_by_name
list_all root = filter_map (λ name. to_option (read_by_name root name)) (available_attrs root)

unfoldable pub list_ppt : Sysfs → List AttrInfo
unfolding read_attr
list_ppt root = filter_map (λ a. to_option (read_attr root a)) all

-- The message of a request outside the range of the firmware.
abbrev pub out_of_range : ℕ → AttrInfo → Message
out_of_range watts info =
    plain (show watts)
    ∷ plain " W is out of range for "
    ∷ plain info.key
    ∷ plain ": "
    ∷ plain (show info.min)
    ∷ plain "–"
    ∷ plain (show info.max)
    ∷ plain " W"
    ∷ []

abbrev write_checked : Kernel → String → ℕ → HwResult AttrInfo → Action
write_checked K name watts (err e) root = (err e, root)
write_checked K name watts (ok info) root =
    if not (in_range info watts)
    then (err (HwError.parse (out_of_range watts info)), root)
    else write K (attr_file name "current_value") (show watts) root

unfoldable pub write_by_name : Kernel → String → ℕ → Action
unfolding read_by_name in_range show write
write_by_name K name watts root = write_checked K name watts (read_by_name root name) root

unfoldable pub write_attr : Kernel → PptAttr → ℕ → Action
unfolding write_by_name dir_name
write_attr K a watts root = write_by_name K (dir_name a) watts root
