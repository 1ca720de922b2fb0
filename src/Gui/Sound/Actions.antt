-- ===== src/Gui/Sound/Actions.antt =====
-- The actions of the glue tab, one after another, on sound windows.
use machine_controller.Gui.Window.{Window}
