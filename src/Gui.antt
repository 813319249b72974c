-- ===== src/Gui.antt =====
-- client/gui.py: the window, its panels and what their buttons do.
pub mod Panel
pub mod Check
pub mod Figures
pub mod Forms
pub mod Window
pub mod Persist
pub mod Autolock
pub mod Request
pub mod Calls
pub mod Answers
