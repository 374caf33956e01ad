-- ===== src/Tests/Offers.antt =====
-- The theorems about what the window and the tray offer, on the daemon of the machine.
use legion_linux_toolkit_rus.Daemon.Auth
use legion_linux_toolkit_rus.Daemon.Methods
use legion_linux_toolkit_rus.Gui.Snapshot
use legion_linux_toolkit_rus.Gui.Tray.Actions
use legion_linux_toolkit_rus.Hw.Ideapad
use legion_linux_toolkit_rus.Text
use mathlib.Core.Option
use legion_linux_toolkit_rus.Prelude.{
  ℕ, String, In, inl, inr, true, false, refl, List, [], ◌∷◌, Option, get_elem?,
}
use legion_linux_toolkit_rus.Hw.Profile
use legion_linux_toolkit_rus.Hw.Profile.{PowerProfile}
use legion_linux_toolkit_rus.Hw.FirmwareAttrs.{AttrInfo}
use legion_linux_toolkit_rus.Daemon.Iface.{Call}
use legion_linux_toolkit_rus.Daemon.Methods.{handle, set_profile}
use legion_linux_toolkit_rus.Gui.Slider.{SliderBounds, pos}
use legion_linux_toolkit_rus.Gui.Snapshot.{Request, Server}
use legion_linux_toolkit_rus.Gui.Tray
use legion_linux_toolkit_rus.Gui.Client.Served.{view}
use legion_linux_toolkit_rus.Hw.Ideapad.{toggle_file}
use legion_linux_toolkit_rus.Gui.Tray.{MenuItem, switch_items}
use legion_linux_toolkit_rus.Gui.Client.Served.Switched.{state_of, switch_items-flipped}
use legion_linux_toolkit_rus.Gui.Tray.Actions.{Shell}
use legion_linux_toolkit_rus.Gui.Client.Served.Chosen.{ShowsChosen, profile_items-chosen}
use legion_linux_toolkit_rus.Text.{◌<>◌}
use legion_linux_toolkit_rus.Tests.Machine.{whole, device, keeping-IsAttribute}
use legion_linux_toolkit_rus.Tests.Host.{outside, daemon}

abbrev spl : AttrInfo
spl = record {
  key = "spl";
  display_name = "CPU PL1";
  current = 70;
  default = 60;
  min = 15;
  max = 115;
  step = 1;
}

abbrev slider : SliderBounds
slider = record { value = pos 70; min = pos 15; max = pos 115 }

flipped_example :
    (q : Request) × In
      (MenuItem.checkmark "Fn Lock" true q)
      (switch_items (state_of whole (handle outside (Call.set_fn_lock true) true daemon).1))
unfolding switch_items Tray.from_snapshot view Ideapad.has Ideapad.get Text.parse_unsigned Text.trim
    Text.is_whitespace Snapshot.to_call handle Methods.authorize Auth.check Ideapad.set Methods.emit
flipped_example =
    switch_items-flipped whole outside true daemon (λ t. keeping-IsAttribute (toggle_file t))
      "Fn Lock" false (Request.set_fn_lock true) (Call.set_fn_lock true) (inl refl) refl refl

-- The window as it is when the menu is open.
abbrev shell : Shell
shell = record { visible = false; minimized = false; running = true }

abbrev options : List String
options = "Quiet" ∷ "Balanced" ∷ "Custom" ∷ []

abbrev asked : ℕ → Option Request
asked i = Option.map Request.set_profile (get_elem? ("low-power" ∷ "balanced" ∷ "custom" ∷ []) i)

chosen_item_example :
    ShowsChosen options 1
      (state_of whole (handle outside (Call.set_profile "balanced") true daemon).1)
unfolding Profile.device_dir Text.trim Text.is_whitespace Tray.profile_items Tray.from_snapshot view
    Profile.choices Profile.get Actions.choose Snapshot.to_call handle Methods.authorize Auth.check
    Profile.from_user Profile.set Methods.persist Methods.emit
chosen_item_example =
    profile_items-chosen whole outside true daemon device refl
      (keeping-IsAttribute (device <> "/profile")) 2 1 options asked shell
      (Request.set_profile "balanced") (Call.set_profile "balanced") (inr (inl refl)) refl refl refl
