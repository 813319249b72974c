-- ===== src/Gui/Forms.antt =====
-- client/gui.py: the fields of each panel and the checks of its buttons.
pub mod System
pub mod Signal
pub mod Pid
pub mod Capture
