-- ===== src/Daemon/State.antt =====
-- crates/legion-daemon/src/state.rs: the settings that survive a restart, and their file.
pub mod Limits
pub mod RoundTrip
pub mod Crash
use Prim.Native.Nat.{Ordering}
use Prim.Native.String.{compare}
use legion_linux_toolkit_rus.Prelude.{
  ℕ, String, Bool, ◌&&◌, Option, none, some, List, [], ◌∷◌, is_empty as is_empty_list,
}
use legion_linux_toolkit_rus.Prelude.Result.{Result, ok, err, unwrap_or}
use legion_linux_toolkit_rus.Hw.Error.{IoError}

-- A `BTreeMap<String, u32>`, as its entries in the order of their keys.
abbrev pub Limits : Type 0
Limits = List (String × ℕ)

abbrev put : String → ℕ → String → ℕ → Limits → Limits → Ordering → Limits
put k v j w m rest Ordering.lt = (k, v) ∷ (j, w) ∷ m
put k v j w m rest Ordering.eq = (k, v) ∷ m
put k v j w m rest Ordering.gt = (j, w) ∷ rest

-- `BTreeMap::insert`
unfoldable pub insert : String → ℕ → Limits → Limits
insert k v [] = (k, v) ∷ []
insert k v ((j, w) ∷ m) = put k v j w m (insert k v m) (compare k j)

pub record State : Type 0 where
  pub profile : Option String
  pub battery_mode : Option String
  pub ppt : Limits

abbrev pub default : State
default = record { profile = none; battery_mode = none; ppt = [] }

-- What the files of the disk answer to `fs::read_to_string`.
abbrev pub Disk : Type 0
Disk = String → Result IoError String

-- The calls of the standard library that change the disk, and `serde_json` on a state.
pub record Storage : Type 0 where
  pub create_dir_all : Disk → String → Result IoError (Unit {0}) × Disk
  pub write : Disk → String → String → Result IoError (Unit {0}) × Disk
  pub rename : Disk → String → String → Result IoError (Unit {0}) × Disk
  pub to_string_pretty : State → Result IoError String
  pub from_str : String → Option State

-- A path of the state file, with its parent and the temporary path that the standard library
-- derives from it.
pub record StatePath : Type 0 where
  pub path : String
  pub parent : Option String
  pub tmp : String

abbrev or_default : Option State → State
or_default none = default
or_default (some s) = s

-- Run a step of the disk after another, unless that has failed.
abbrev pub and_then :
    Result IoError (Unit {0}) × Disk
    → (Disk → Result IoError (Unit {0}) × Disk)
    → Result IoError (Unit {0}) × Disk
and_then (ok u, d) f = f d
and_then (err e, d) f = (err e, d)

module _ (S : Storage) where
  open S use {create_dir_all, write, rename, to_string_pretty, from_str}

  abbrev loaded : Result IoError String → State
  loaded (ok raw) = or_default (from_str raw)
  loaded (err e) = default

  unfoldable pub load : StatePath → Disk → State
  load at disk = loaded (disk at.path)

  abbrev pub make_parent : Option String → Disk → Result IoError (Unit {0}) × Disk
  make_parent none disk = (ok tt, disk)
  make_parent (some parent) disk = create_dir_all disk parent

  abbrev pub save_text : StatePath → Result IoError String → Disk → Result IoError (Unit {0}) × Disk
  save_text at (err e) disk = (err e, disk)
  save_text at (ok json) disk = and_then (write disk at.tmp json) (λ d. rename d at.tmp at.path)

  unfoldable pub save : State → StatePath → Disk → Result IoError (Unit {0}) × Disk
  save s at disk = and_then (make_parent at.parent disk) (save_text at (to_string_pretty s))

unfoldable pub set_ppt : String → ℕ → State → State
unfolding insert
set_ppt key watts s = record s { ppt = insert key watts s.ppt }

abbrev is_none : Option String → Bool
is_none none = Bool.true
is_none (some s) = Bool.false

unfoldable pub is_empty : State → Bool
is_empty s = is_none s.profile && is_none s.battery_mode && is_empty_list s.ppt

abbrev pub default_state_path : String
default_state_path = "/var/lib/legiond/state.json"

-- `state_path`: the override, or the path of the service.
unfoldable pub state_path : Option String → String
state_path none = default_state_path
state_path (some p) = p
