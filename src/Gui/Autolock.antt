-- ===== src/Gui/Autolock.antt =====
-- client/gui.py: `_AutolockPanel`, but for the persistent mode.
mod Search
mod Sequence
pub mod Laws
pub mod Wire
pub mod Sync
unfoldable pub use Search.*
unfoldable pub use Sequence.*
