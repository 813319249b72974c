-- ===== src/Api/Types.antt =====
-- client/pdh_api/types.py: the enumerations, the columns of each frame and of each sweep.
mod Enum
mod Frames
mod Selectors
mod Columns
pub mod Laws
unfoldable pub use Enum.*
pub use Frames.*
pub use Selectors.*
pub use Columns.*
pub use Laws.*
