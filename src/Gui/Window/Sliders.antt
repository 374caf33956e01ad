-- ===== src/Gui/Window/Sliders.antt =====
-- What a slider of the window sends.
use legion_linux_toolkit_rus.Prelude.{Option}
