-- ===== src/Gui/Tray.antt =====
-- crates/legion-gui/src/tray.rs: the menu of the tray, as a function of the state of the daemon.
pub mod Menu
pub mod Switches
pub mod Radios
pub mod Actions
use legion_linux_toolkit_rus.Prelude.{
  ℕ, String, Bool, true, false, not, ◌&&◌, ◌||◌, Option, none, some, List, [], ◌∷◌, ◌++◌, map,
  position, get_elem?, is_empty, ◌==◌, if◌then◌else◌,
}
use legion_linux_toolkit_rus.Prelude.Result.{Result, ok, err}
use legion_linux_toolkit_rus.Text.{◌<>◌}
use legion_linux_toolkit_rus.Gui.Labels.{profile_label, battery_label, tray_icon_name}
use legion_linux_toolkit_rus.Gui.Snapshot
use legion_linux_toolkit_rus.Gui.Snapshot.{Snapshot, Request}
use mathlib.Core.Option

pub record TrayState : Type 0 where
  pub profile : String
  pub profile_choices : List String
  pub battery_mode : String
  pub battery_choices : List String
  pub fn_lock : Bool
  pub camera : Bool
  pub has_fn_lock : Bool
  pub has_camera : Bool

-- `TrayState::default()`
abbrev pub default : TrayState
default = record {
  profile = "";
  profile_choices = [];
  battery_mode = "";
  battery_choices = [];
  fn_lock = false;
  camera = false;
  has_fn_lock = false;
  has_camera = false;
}

unfoldable pub from_snapshot : Snapshot → TrayState
from_snapshot s = record {
  profile = s.profile;
  profile_choices = s.profile_choices;
  battery_mode = s.battery_mode;
  battery_choices = s.capabilities.charge_type_choices;
  fn_lock = s.fn_lock;
  camera = s.camera;
  has_fn_lock = s.capabilities.fn_lock;
  has_camera = s.capabilities.camera_power;
}

unfoldable pub tooltip : TrayState → String
unfolding profile_label
tooltip t =
    if t.profile == "" then "Legion Toolkit" else "Legion Toolkit — " <> profile_label t.profile

-- `ksni::menu::MenuItem`, with what an item sends when it is activated: a radio group has the
-- index that is selected, its labels, and the request for an index.
pub data MenuItem : Type 0 where
  heading : String → MenuItem
  radio : ℕ → List String → (ℕ → Option Request) → MenuItem
  checkmark : String → Bool → Request → MenuItem
  show_window quit separator : MenuItem

abbrev pub or_zero : Option ℕ → ℕ
or_zero none = 0
or_zero (some i) = i

-- `choices.iter().position(|c| *c == current).unwrap_or(0)`
unfoldable pub selected : List String → String → ℕ
selected choices current = or_zero (position (λ c. c == current) choices)

unfoldable pub profile_items : TrayState → List MenuItem
unfolding selected profile_label
profile_items t =
    if is_empty t.profile_choices
    then []
    else (MenuItem.heading "Power Mode"
        ∷ MenuItem.radio (selected t.profile_choices t.profile)
            (map profile_label t.profile_choices)
            (λ i. Option.map Request.set_profile (get_elem? t.profile_choices i))
        ∷ MenuItem.separator
        ∷ [])

unfoldable pub battery_items : TrayState → List MenuItem
unfolding selected battery_label
battery_items t =
    if is_empty t.battery_choices
    then []
    else (MenuItem.heading "Battery"
        ∷ MenuItem.radio (selected t.battery_choices t.battery_mode)
            (map battery_label t.battery_choices)
            (λ i. Option.map Request.set_battery_mode (get_elem? t.battery_choices i))
        ∷ MenuItem.separator
        ∷ [])

unfoldable pub switch_items : TrayState → List MenuItem
switch_items t =
    (if t.has_fn_lock
      then MenuItem.checkmark "Fn Lock" t.fn_lock (Request.set_fn_lock (not t.fn_lock)) ∷ []
      else [])
    ++ (if t.has_camera
        then MenuItem.checkmark "Camera" t.camera (Request.set_camera_power (not t.camera)) ∷ []
        else [])
    ++ (if t.has_fn_lock || t.has_camera then MenuItem.separator ∷ [] else [])

unfoldable pub menu : TrayState → List MenuItem
unfolding profile_items battery_items switch_items
menu t =
    profile_items t
    ++ battery_items t
    ++ switch_items t
    ++ MenuItem.show_window ∷ MenuItem.quit ∷ []

abbrev pub same_texts : List String → List String → Bool
same_texts [] [] = true
same_texts (s ∷ ss) (t ∷ ts) = s == t && same_texts ss ts
same_texts _ _ = false

abbrev pub same_bool : Bool → Bool → Bool
same_bool true b = b
same_bool false b = not b

-- `PartialEq for TrayState`
unfoldable pub same_state : TrayState → TrayState → Bool
same_state a b =
    a.profile == b.profile
    && same_texts a.profile_choices b.profile_choices
    && a.battery_mode == b.battery_mode
    && same_texts a.battery_choices b.battery_choices
    && same_bool a.fn_lock b.fn_lock
    && same_bool a.camera b.camera
    && same_bool a.has_fn_lock b.has_fn_lock
    && same_bool a.has_camera b.has_camera

-- `TrayHandle`, with the state that the item renders and the number of updates it was sent.
pub record TrayHandle : Type 0 where
  pub last : TrayState
  pub shown : TrayState
  pub updates : ℕ

-- `spawn`: no handle where ksni cannot register the icon.
unfoldable pub spawn : Result String (Unit {0}) → Result String TrayHandle
spawn (err e) = err e
spawn (ok u) = ok (record { last = default; shown = default; updates = 0 })

-- `TrayHandle::update`
unfoldable pub update : Snapshot → TrayHandle → TrayHandle
unfolding from_snapshot same_state
update snap h =
    let next = from_snapshot snap in
    if same_state h.last next
    then h
    else record { last = next; shown = next; updates = Prim.Native.Nat.suc h.updates }
