-- ===== src/Gui/Tray/Actions.antt =====
-- crates/legion-gui/src/tray.rs: the icon of the tray, its tool tip, and what a click does to the
-- window.
use legion_linux_toolkit_rus.Prelude.{
  ℕ, String, Bool, true, false, Option, none, some, if◌then◌else◌,
}
use legion_linux_toolkit_rus.Gui.Labels.{tray_icon_name}
use legion_linux_toolkit_rus.Gui.Snapshot.{Request}
use legion_linux_toolkit_rus.Gui.Tray.{TrayState, MenuItem, tooltip}

-- The window of the toolkit, and whether the event loop still runs.
pub record Shell : Type 0 where
  pub visible : Bool
  pub minimized : Bool
  pub running : Bool

unfoldable pub show_window : Shell → Shell
show_window s = record s { visible = true; minimized = false }

unfoldable pub toggle_window : Shell → Shell
unfolding show_window
toggle_window s = if s.visible then record s { visible = false } else show_window s

-- A click on the icon.
unfoldable pub activate : Shell → Shell
unfolding toggle_window
activate s = toggle_window s

-- The item "Quit".
unfoldable pub quit : Shell → Shell
quit s = record s { running = false }

pub record ToolTip : Type 0 where
  pub title : String
  pub description : String
  pub icon_name : String

unfoldable pub icon_name : TrayState → String
unfolding tray_icon_name
icon_name t = tray_icon_name t.profile

unfoldable pub tool_tip : TrayState → ToolTip
unfolding tooltip icon_name
tool_tip t = record { title = "Legion Toolkit"; description = tooltip t; icon_name = icon_name t }

-- What choosing an item of the menu does, at an index where it is a radio group: the request that
-- is sent, and the window.
unfoldable pub choose : MenuItem → ℕ → Shell → Option Request × Shell
unfolding show_window quit
choose (MenuItem.heading l) i s = (none, s)
choose (MenuItem.radio selected options select) i s = (select i, s)
choose (MenuItem.checkmark l on r) i s = (some r, s)
choose MenuItem.show_window i s = (none, show_window s)
choose MenuItem.quit i s = (none, quit s)
choose MenuItem.separator i s = (none, s)
